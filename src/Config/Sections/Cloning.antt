-- ===== src/Config/Sections/Cloning.antt =====
-- Cloning a section of config/cfg-section.go into another of its shape, and what config/changes.go then
-- counts.
use text.Mathlib.Text.{◌==◌}
use text.Mathlib.TextEquality.{eq_iff}
use text.Mathlib.TextPositions.{eq_refl}
use node_manager_core.Base.{
  ◌≡◌, refl, ◌∙◌, String, true, false, some, List, [], ◌∷◌, arith, >>=-eq-some,
}
use node_manager_core.Config.{GoValues, Param, to_text, set_value, update_description}
use node_manager_core.Config.Sections.{
  Section, section, Subconfigs, no_more, subconfig, ChangedSection, changed, ChangedSections,
  none_changed, clone, clone_parameters, clone_subconfigs, find_subconfig, replace_subconfig,
  get_changed_settings, changed_parameters, changed_subconfigs, add_section, changed_of,
}

module _ (lib : GoValues) where
  -- Every subsection has a name of its own.
  abbrev Fresh : String → Subconfigs lib → Type 0
  Fresh k no_more = Unit
  Fresh k (subconfig j s ss) = ((j == k) ≡ false) × Fresh k ss

  abbrev mutual
    pub IsDistinct : Section lib → Type 0
    IsDistinct (section title ps ss) = AreDistinct ss

    pub AreDistinct : Subconfigs lib → Type 0
    AreDistinct no_more = Unit
    AreDistinct (subconfig k s ss) = Fresh k ss × IsDistinct s × AreDistinct ss

  clone_parameters-unchanged :
      (network : String) (ps qs rs : List (Param lib))
      → clone_parameters lib network ps qs ≡ some rs
      → changed_parameters lib ps rs ≡ some ([], 0)
  unfolding clone_parameters changed_parameters set_value update_description to_text
  clone_parameters-unchanged network [] qs rs h = refl
  clone_parameters-unchanged network (p ∷ ps) [] rs h = cc
  clone_parameters-unchanged network (p ∷ ps) (q ∷ qs) rs h =
      let (q', e, h1) = >>=-eq-some (set_value lib q p.value) _ h in
      let (qs', e', h2) = >>=-eq-some (clone_parameters lib network ps qs) _ h1 in
      let k = clone_parameters-unchanged network ps qs qs' e' in
      ground (arith, eq_refl (lib.sprint p.value), k, h2, e)

  find_replaced :
      (k : String) (t t' : Section lib) (ts : Subconfigs lib)
      → find_subconfig lib k ts ≡ some t
      → find_subconfig lib k (replace_subconfig lib k t' ts) ≡ some t'
  unfolding find_subconfig replace_subconfig
  find_replaced k t t' no_more h = cc
  find_replaced k t t' (subconfig j s ss) h = ground (arith, find_replaced k t t' ss)

  find_other :
      (j k : String) (t : Section lib) (ts : Subconfigs lib)
      → (k == j) ≡ false
      → find_subconfig lib j (replace_subconfig lib k t ts) ≡ find_subconfig lib j ts
  unfolding find_subconfig replace_subconfig
  find_other j k t no_more h = refl
  find_other j k t (subconfig i s ss) h =
      ground (arith, find_other j k t ss h, eq_iff i k, eq_iff i j, eq_iff k j)

  clone_subconfigs-Fresh :
      (network k : String) (ss ts us : Subconfigs lib)
      → Fresh k ss
      → clone_subconfigs lib network ss ts ≡ some us
      → find_subconfig lib k us ≡ find_subconfig lib k ts
  unfolding clone
  clone_subconfigs-Fresh network k no_more ts us f h = ground arith
  clone_subconfigs-Fresh network k (subconfig j s ss) ts us f h =
      let (t, e, h1) = >>=-eq-some (find_subconfig lib j ts) _ h in
      let (t', e', h2) = >>=-eq-some (clone lib network s t) _ h1 in
      clone_subconfigs-Fresh network k ss (replace_subconfig lib j t' ts) us f.1 h2
      ∙ find_other k j t' ts f.0

  mutual
    unfolding clone get_changed_settings changed_of add_section

    cloned_section :
        (network : String) (s t u : Section lib)
        → IsDistinct s
        → clone lib network s t ≡ some u
        → (r : ChangedSection) × (get_changed_settings lib s u ≡ some (r, 0))
    cloned_section network (section title ps ss) (section other qs ts) u d h =
        let (qs', e, h1) = >>=-eq-some (clone_parameters lib network ps qs) _ h in
        let (ts', e', h2) = >>=-eq-some (clone_subconfigs lib network ss ts) _ h1 in
        let (r, k) = cloned_subsections network ss ts ts' d e' in
        let c = clone_parameters-unchanged network ps qs qs' e in
        (changed title [] r, ground (arith, c, k, h2))

    cloned_subsections :
        (network : String) (ss ts us : Subconfigs lib)
        → AreDistinct ss
        → clone_subconfigs lib network ss ts ≡ some us
        → (r : ChangedSections) × (changed_subconfigs lib ss us ≡ some (r, 0))
    cloned_subsections network no_more ts us d h = (none_changed, refl)
    cloned_subsections network (subconfig k s ss) ts us d h =
        let (t, e, h1) = >>=-eq-some (find_subconfig lib k ts) _ h in
        let (t', e', h2) = >>=-eq-some (clone lib network s t) _ h1 in
        let (r, i) = cloned_section network s t t' d.1 e' in
        let (rs, j) = cloned_subsections network ss (replace_subconfig lib k t' ts) us d.2 h2 in
        let f =
          clone_subconfigs-Fresh network k ss (replace_subconfig lib k t' ts) us d.0 h2
          ∙ find_replaced k t t' ts e in
        (rs, ground (arith, f, i, j))

  -- A source and a target of one shape: each parameter's value fits its counterpart, and each
  -- subsection has one of its name.
  abbrev ParametersMatch : List (Param lib) → List (Param lib) → Type 0
  ParametersMatch [] qs = Unit
  ParametersMatch (p ∷ ps) [] = ⊥
  ParametersMatch (p ∷ ps) (q ∷ qs) = (lib.has_kind q.kind p.value ≡ true) × ParametersMatch ps qs

  abbrev mutual
    pub Matches : Section lib → Section lib → Type 0
    Matches (section title ps ss) (section other qs ts) =
        ParametersMatch ps qs × SubsectionsMatch ss ts

    SubsectionsMatch : Subconfigs lib → Subconfigs lib → Type 0
    SubsectionsMatch no_more ts = Unit
    SubsectionsMatch (subconfig k s ss) ts =
        ((t : Section lib) × (find_subconfig lib k ts ≡ some t) × Matches s t)
        × SubsectionsMatch ss ts

  replace-SubsectionsMatch :
      (k : String) (t : Section lib) (ss ts : Subconfigs lib)
      → Fresh k ss
      → SubsectionsMatch ss ts
      → SubsectionsMatch ss (replace_subconfig lib k t ts)
  replace-SubsectionsMatch k t no_more ts f h = tt
  replace-SubsectionsMatch k t (subconfig j s ss) ts f ((u, e, h), hs) = (
    (u, find_other j k t ts (ground (arith, eq_iff k j, eq_iff j k)) ∙ e, h),
    replace-SubsectionsMatch k t ss ts f.1 hs,
  )

  clone_parameters-total :
      (network : String) (ps qs : List (Param lib))
      → ParametersMatch ps qs
      → (rs : List (Param lib)) × (clone_parameters lib network ps qs ≡ some rs)
  unfolding clone_parameters set_value
  clone_parameters-total network [] qs h = (qs, refl)
  clone_parameters-total network (p ∷ ps) [] h = elim h [ ]
  clone_parameters-total network (p ∷ ps) (q ∷ qs) (h, hs) =
      let (rs, e) = clone_parameters-total network ps qs hs in
      (update_description (record q { value = p.value }) network ∷ rs, ground (arith, h, e))

  mutual
    unfolding clone

    clone-total :
        (network : String) (s t : Section lib)
        → IsDistinct s
        → Matches s t
        → (u : Section lib) × (clone lib network s t ≡ some u)
    clone-total network (section title ps ss) (section other qs ts) d (h, hs) =
        let (rs, e) = clone_parameters-total network ps qs h in
        let (us, e') = clone_subconfigs-total network ss ts d hs in
        (section other rs us, ground (arith, e, e'))

    clone_subconfigs-total :
        (network : String) (ss ts : Subconfigs lib)
        → AreDistinct ss
        → SubsectionsMatch ss ts
        → (us : Subconfigs lib) × (clone_subconfigs lib network ss ts ≡ some us)
    clone_subconfigs-total network no_more ts d h = (ts, refl)
    clone_subconfigs-total network (subconfig k s ss) ts d ((t, e, h), hs) =
        let (t', e') = clone-total network s t d.1 h in
        let (us, e'') =
          clone_subconfigs-total network ss (replace_subconfig lib k t' ts) d.2
            (replace-SubsectionsMatch k t' ss ts d.0 hs) in
        (us, ground (arith, e, e', e''))

  -- A section clones into any section of its shape without a panic, and comparing the source with the
  -- result then counts no changed setting; the subsections of a section have names of their own.
  pub get_changed_settings-clone :
      (network : String) (s t : Section lib)
      → IsDistinct s
      → Matches s t
      → (u : Section lib) × (clone lib network s t ≡ some u)
        × ((r : ChangedSection) × (get_changed_settings lib s u ≡ some (r, 0)))
  get_changed_settings-clone network s t d h =
      let (u, e) = clone-total network s t d h in (u, e, cloned_section network s t u d e)
