-- ===== src/Config/Sections.antt =====
-- config/cfg-section.go, changes.go and changed-setting.go: the tree of configuration sections.
pub mod Changes
pub mod Cloning
pub mod Storage
use text.Mathlib.Text.{◌==◌}
use node_manager_core.Base.{
  ℕ, zero, ◌+◌, suc, String, Bool, true, Option, none, some, List, [], ◌∷◌, map, if◌then◌else◌,
  ◌>>=◌,
}
use node_manager_core.Config.{
  GoValues, Param, to_text, set_value, update_description, change_network, set_to_default,
}

-- A section with its parameters and its map of subsections, in the order of one iteration over it.
mutual
  pub data Section (lib : GoValues) : Type 0 where
    section : String → List (Param lib) → Subconfigs lib → Section lib

  pub data Subconfigs (lib : GoValues) : Type 0 where
    no_more : Subconfigs lib
    subconfig : String → Section lib → Subconfigs lib → Subconfigs lib

pub record ChangedSetting : Type 0 where
  pub name : String
  pub old_value : String
  pub new_value : String
  pub affected_containers : List String

mutual
  pub data ChangedSection : Type 0 where
    changed : String → List ChangedSetting → ChangedSections → ChangedSection

  pub data ChangedSections : Type 0 where
    none_changed : ChangedSections
    also_changed : ChangedSection → ChangedSections → ChangedSections

module _ (lib : GoValues) where
  unfoldable pub find_subconfig : String → Subconfigs lib → Option (Section lib)
  find_subconfig k no_more = none
  find_subconfig k (subconfig j s ss) = if j == k then some s else find_subconfig k ss

  -- The subsections of a target are pointers: what is done to one is seen in the map.
  unfoldable pub replace_subconfig : String → Section lib → Subconfigs lib → Subconfigs lib
  replace_subconfig k t no_more = no_more
  replace_subconfig k t (subconfig j s ss) =
      let rest = replace_subconfig k t ss in if j == k then subconfig j t ss else subconfig j s rest

  unfoldable pub clone_parameters :
      String → List (Param lib) → List (Param lib) → Option (List (Param lib))
  unfolding set_value update_description
  clone_parameters network [] qs = some qs
  clone_parameters network (p ∷ ps) [] = none
  clone_parameters network (p ∷ ps) (q ∷ qs) = set_value lib q p.value >>= (λ q'.
      clone_parameters network ps qs >>= (λ qs'. some (update_description q' network ∷ qs')))

  -- Nothing where the source panics: on a missing parameter or subsection of the target, or on a
  -- parameter of another type.
  unfoldable mutual
    pub clone : String → Section lib → Section lib → Option (Section lib)
    clone network (section _ ps ss) (section title qs ts) =
        clone_parameters network ps qs
        >>= (λ qs'. clone_subconfigs network ss ts >>= (λ ts'. some (section title qs' ts')))

    pub clone_subconfigs : String → Subconfigs lib → Subconfigs lib → Option (Subconfigs lib)
    clone_subconfigs network no_more ts = some ts
    clone_subconfigs network (subconfig k s ss) ts = find_subconfig k ts >>= (λ t.
        clone network s t >>= (λ t'. clone_subconfigs network ss (replace_subconfig k t' ts)))

  unfoldable mutual
    pub change_networks : String → String → Section lib → Section lib
    change_networks old_network new_network (section title ps ss) =
        section title (map (λ p. change_network lib p old_network new_network) ps)
          (change_subconfigs old_network new_network ss)

    pub change_subconfigs : String → String → Subconfigs lib → Subconfigs lib
    change_subconfigs old_network new_network no_more = no_more
    change_subconfigs old_network new_network (subconfig k s ss) =
        subconfig k (change_networks old_network new_network s)
          (change_subconfigs old_network new_network ss)

  -- Every parameter that `chosen` picks gets its default; nothing where one has none.
  unfoldable pub default_parameters :
      (Param lib → Bool) → String → List (Param lib) → Option (List (Param lib))
  default_parameters chosen network [] = some []
  default_parameters chosen network (p ∷ ps) =
      (if chosen p then set_to_default p network else some p)
      >>= (λ p'. default_parameters chosen network ps >>= (λ ps'. some (p' ∷ ps')))

  unfoldable mutual
    pub default_section : (Param lib → Bool) → String → Section lib → Option (Section lib)
    default_section chosen network (section title ps ss) =
        default_parameters chosen network ps
        >>= (λ ps'. default_subconfigs chosen network ss >>= (λ ss'. some (section title ps' ss')))

    pub default_subconfigs : (Param lib → Bool) → String → Subconfigs lib → Option (Subconfigs lib)
    default_subconfigs chosen network no_more = some no_more
    default_subconfigs chosen network (subconfig k s ss) =
        default_section chosen network s
        >>= (λ s'. default_subconfigs chosen network ss >>= (λ ss'. some (subconfig k s' ss')))

  unfoldable pub apply_defaults : Section lib → String → Option (Section lib)
  apply_defaults s network = default_section (λ p. true) network s

  unfoldable pub update_defaults : Section lib → String → Option (Section lib)
  update_defaults s network = default_section (λ p. p.overwrite_on_upgrade) network s

  abbrev setting_of : Param lib → Param lib → ChangedSetting
  setting_of p q = record {
    name = p.name;
    old_value = to_text lib p;
    new_value = to_text lib q;
    affected_containers = p.affects_containers;
  }

  add_setting : Param lib → Param lib → List ChangedSetting × ℕ → List ChangedSetting × ℕ
  unfolding to_text
  add_setting p q (settings, n) =
      if to_text lib p == to_text lib q then (settings, n) else (setting_of p q ∷ settings, suc n)

  -- Nothing where the new section has fewer parameters and the source panics.
  unfoldable pub changed_parameters :
      List (Param lib) → List (Param lib) → Option (List ChangedSetting × ℕ)
  unfolding add_setting
  changed_parameters [] qs = some ([], 0)
  changed_parameters (p ∷ ps) [] = none
  changed_parameters (p ∷ ps) (q ∷ qs) =
      changed_parameters ps qs >>= (λ r. some (add_setting p q r))

  unfoldable pub add_section : ChangedSection × ℕ → ChangedSections × ℕ → ChangedSections × ℕ
  add_section (s, zero) (ss, n) = (ss, n)
  add_section (s, suc m) (ss, n) = (also_changed s ss, suc m + n)

  unfoldable pub changed_of :
      String → List ChangedSetting × ℕ → ChangedSections × ℕ → ChangedSection × ℕ
  changed_of title (settings, m) (sections, n) = (changed title settings sections, m + n)

  unfoldable mutual
    pub get_changed_settings : Section lib → Section lib → Option (ChangedSection × ℕ)
    get_changed_settings (section title ps ss) (section _ qs ts) =
        changed_parameters ps qs
        >>= (λ r. changed_subconfigs ss ts >>= (λ rs. some (changed_of title r rs)))

    pub changed_subconfigs : Subconfigs lib → Subconfigs lib → Option (ChangedSections × ℕ)
    changed_subconfigs no_more ts = some (none_changed, 0)
    changed_subconfigs (subconfig k s ss) ts = find_subconfig k ts >>= (λ t.
        get_changed_settings s t
        >>= (λ r. changed_subconfigs ss ts >>= (λ rs. some (add_section r rs))))

-- The map of containers, as the test whether a container is in it.
abbrev pub Containers : Type 0
Containers = String → Bool

abbrev pub mark : String → Containers → Containers
mark k containers c = if k == c then true else containers c

abbrev pub mark_all : List String → Containers → Containers
mark_all [] containers = containers
mark_all (k ∷ ks) containers = mark_all ks (mark k containers)

unfoldable pub mark_settings : List ChangedSetting → Containers → Containers
mark_settings [] containers = containers
mark_settings (s ∷ ss) containers = mark_settings ss (mark_all s.affected_containers containers)

unfoldable mutual
  pub get_affected_containers : ChangedSection → Containers → Containers
  get_affected_containers (changed name settings sections) containers =
      get_affected_subsections sections (mark_settings settings containers)

  pub get_affected_subsections : ChangedSections → Containers → Containers
  get_affected_subsections none_changed containers = containers
  get_affected_subsections (also_changed s ss) containers =
      get_affected_subsections ss (get_affected_containers s containers)
