-- ===== src/Config/Sections/Changes.antt =====
-- Which settings of config/changes.go count as changed, and which containers they affect.
use text.Mathlib.TextEquality.{eq_iff}
use node_manager_core.Base.{
  ℕ, ◌+◌, ◌≡◌, ◌↔◌, ◌⊎◌, String, true, some, List, [], ◌∷◌, arith, >>=-eq-some, length,
}
use node_manager_core.Config.{GoValues, Param}
use node_manager_core.Config.Sections.{
  Section, section, Subconfigs, no_more, subconfig, ChangedSetting, ChangedSection, changed,
  ChangedSections, none_changed, also_changed, find_subconfig, get_changed_settings,
  changed_parameters, changed_subconfigs, add_section, changed_of, Containers, mark_all, mark,
  mark_settings, get_affected_containers, get_affected_subsections,
}

-- A list of containers has a container.
abbrev pub HasContainer : String → List String → Type 0
HasContainer c [] = ⊥
HasContainer c (k ∷ ks) = (k ≡ c) ⊎ HasContainer c ks

abbrev pub SettingsAffect : String → List ChangedSetting → Type 0
SettingsAffect c [] = ⊥
SettingsAffect c (s ∷ ss) = HasContainer c s.affected_containers ⊎ SettingsAffect c ss

-- A changed setting of the section or of a section below it affects a container.
abbrev mutual
  pub Affects : String → ChangedSection → Type 0
  Affects c (changed name settings sections) =
      SettingsAffect c settings ⊎ SubsectionsAffect c sections

  pub SubsectionsAffect : String → ChangedSections → Type 0
  SubsectionsAffect c none_changed = ⊥
  SubsectionsAffect c (also_changed s ss) = Affects c s ⊎ SubsectionsAffect c ss

mark_all_iff :
    (ks : List String) (m : Containers) (c : String)
    → (mark_all ks m c ≡ true) ↔ (HasContainer c ks ⊎ (m c ≡ true))
mark_all_iff [] m c = ground arith
mark_all_iff (k ∷ ks) m c = ground (arith, mark_all_iff ks (mark k m) c, eq_iff k c)

mark_settings_iff :
    (ss : List ChangedSetting) (m : Containers) (c : String)
    → (mark_settings ss m c ≡ true) ↔ (SettingsAffect c ss ⊎ (m c ≡ true))
unfolding mark_settings
mark_settings_iff [] m c = ground arith
mark_settings_iff (s ∷ ss) m c = ground (
  arith,
  mark_settings_iff ss (mark_all s.affected_containers m) c,
  mark_all_iff s.affected_containers m c,
)

mutual
  unfolding get_affected_containers

  section_iff :
      (s : ChangedSection) (m : Containers) (c : String)
      → (get_affected_containers s m c ≡ true) ↔ (Affects c s ⊎ (m c ≡ true))
  section_iff (changed name ss rest) m c =
      ground (arith, subsections_iff rest (mark_settings ss m) c, mark_settings_iff ss m c)

  subsections_iff :
      (ss : ChangedSections) (m : Containers) (c : String)
      → (get_affected_subsections ss m c ≡ true) ↔ (SubsectionsAffect c ss ⊎ (m c ≡ true))
  subsections_iff none_changed m c = ground arith
  subsections_iff (also_changed s ss) m c =
      ground (arith, subsections_iff ss (get_affected_containers s m) c, section_iff s m c)

-- The containers that are marked afterwards are exactly those that a changed setting anywhere in the
-- section affects, and those that were marked before.
pub get_affected_containers_iff :
    (s : ChangedSection) (m : Containers) (c : String)
    → (get_affected_containers s m c ≡ true) ↔ (Affects c s ⊎ (m c ≡ true))
get_affected_containers_iff s m c = section_iff s m c

-- The settings that a changed section lists, with those of its subsections.
abbrev mutual
  pub count_settings : ChangedSection → ℕ
  count_settings (changed name settings sections) = length settings + count_subsettings sections

  pub count_subsettings : ChangedSections → ℕ
  count_subsettings none_changed = 0
  count_subsettings (also_changed s ss) = count_settings s + count_subsettings ss

module _ (lib : GoValues) where
  changed_parameters-count :
      (ps qs : List (Param lib)) (settings : List ChangedSetting) (n : ℕ)
      → changed_parameters lib ps qs ≡ some (settings, n)
      → length settings ≡ n
  unfolding changed_parameters
  changed_parameters-count [] qs settings n h = ground arith
  changed_parameters-count (p ∷ ps) [] settings n h = ground arith
  changed_parameters-count (p ∷ ps) (q ∷ qs) settings n h =
      let ((ss, m), e, h1) = >>=-eq-some (changed_parameters lib ps qs) _ h in
      ground (arith, changed_parameters-count ps qs ss m e)

  mutual
    unfolding get_changed_settings changed_of add_section

    section-count :
        (s t : Section lib) (r : ChangedSection) (n : ℕ)
        → get_changed_settings lib s t ≡ some (r, n)
        → count_settings r ≡ n
    section-count (section title ps ss) (section other qs ts) r n h =
        let ((settings, a), e, h1) = >>=-eq-some (changed_parameters lib ps qs) _ h in
        let ((rest, b), e', h2) = >>=-eq-some (changed_subconfigs lib ss ts) _ h1 in
        ground
          (arith, changed_parameters-count ps qs settings a e, subsections-count ss ts rest b e')

    subsections-count :
        (ss ts : Subconfigs lib) (r : ChangedSections) (n : ℕ)
        → changed_subconfigs lib ss ts ≡ some (r, n)
        → count_subsettings r ≡ n
    subsections-count no_more ts r n h = ground arith
    subsections-count (subconfig k s ss) ts r n h =
        let (t, e, h1) = >>=-eq-some (find_subconfig lib k ts) _ h in
        let ((x, a), e', h2) = >>=-eq-some (get_changed_settings lib s t) _ h1 in
        let ((rest, b), e'', h3) = >>=-eq-some (changed_subconfigs lib ss ts) _ h2 in
        ground (arith, section-count s t x a e', subsections-count ss ts rest b e'')

  -- The number that comes with a comparison is the number of the settings that the changed section and
  -- its subsections list.
  pub get_changed_settings-count :
      (s t : Section lib) (r : ChangedSection) (n : ℕ)
      → get_changed_settings lib s t ≡ some (r, n)
      → count_settings r ≡ n
  get_changed_settings-count s t r n h = section-count s t r n h
