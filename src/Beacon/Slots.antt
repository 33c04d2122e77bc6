-- ===== src/Beacon/Slots.antt =====
-- The slots that `getValidatorsByOpts` fills: one answer after the other, behind those of the earlier
-- batches.
use node_manager_core.Utils.Hex.{Bytes}
use node_manager_core.Base.{
  ℕ, zero, suc, ◌+◌, ◌≡◌, ◌≤◌, refl, sym, ap, ◌∙◌, subst, Option, none, some, List, [], ◌∷◌, ◌++◌,
  map, length, ◌>>=◌, arith, append_assoc, append-nil, length-append,
}
use node_manager_core.Beacon.{Answer, StateId, blank, write_at, place, clip}
use node_manager_core.Beacon.Batches.{Done, items}

zero_add : (m : ℕ) → zero + m ≡ m
zero_add m = omega arith

suc_add : (m n : ℕ) → suc m + n ≡ suc (m + n)
suc_add m n = omega arith

module _ {V : Type 0} where
  write_end :
      (pre s : List (Option V)) (x : Option V) (v : V)
      → write_at (length pre) v (pre ++ (x ∷ s)) ≡ some (pre ++ (some v ∷ s))
  unfolding write_at
  write_end [] s x v = refl
  write_end (y ∷ pre) s x v = rw (write_end pre s x v)

  pub place_end :
      (pre : List (Option V)) (vs : List V) (m : ℕ)
      → place (length pre) vs (pre ++ blank (length vs + m))
        ≡ some ((pre ++ map (λ x. some x) vs) ++ blank m)
  unfolding place
  place_end pre [] m =
      ap (λ s. some s)
        (ap (λ k. pre ++ blank k) (zero_add m) ∙ ap (λ s. s ++ blank m) (sym (append-nil pre)))
  place_end pre (v ∷ vs) m =
      let rest : List (Option V) = blank (length vs + m) in
      let p : List (Option V) = pre ++ (some v ∷ []) in
      let k : length p ≡ suc (length pre) = omega (arith, length-append pre (some v ∷ [])) in
      ap (λ n. write_at (length pre) v (pre ++ blank n) >>= place (suc (length pre)) vs)
        (suc_add (length vs) m)
      ∙ ap (λ s. s >>= place (suc (length pre)) vs) (write_end pre rest none v)
      ∙ ap (λ s. place (suc (length pre)) vs s) (sym (append_assoc pre (some v ∷ []) rest))
      ∙ subst (λ n. place n vs (p ++ rest) ≡ some ((p ++ map (λ x. some x) vs) ++ blank m)) k
          (place_end p vs m)
      ∙ ap (λ s. some (s ++ blank m)) (append_assoc pre (some v ∷ []) (map (λ x. some x) vs))

  pub clip-append : (s t : List (Option V)) → clip (s ++ t) ≡ clip s ++ clip t
  unfolding clip
  clip-append [] t = refl
  clip-append (none ∷ s) t = clip-append s t
  clip-append (some v ∷ s) t = ap (λ vs. v ∷ vs) (clip-append s t)

  pub clip-some : (vs : List V) → clip (map (λ x. some x) vs) ≡ vs
  unfolding clip
  clip-some [] = refl
  clip-some (v ∷ vs) = ap (λ ws. v ∷ ws) (clip-some vs)

  pub clip-blank : (n : ℕ) → clip (blank {V = V} n) ≡ []
  unfolding clip
  clip-blank zero = refl
  clip-blank (suc n) = clip-blank n

  pub blank-add : (m n : ℕ) → blank {V = V} (m + n) ≡ blank m ++ blank n
  blank-add zero n = ap blank (omega arith)
  blank-add (suc m) n = ap blank (suc_add m n) ∙ ap (λ s. none ∷ s) (blank-add m n)

  pub length-append-blank : (s : List (Option V)) (n : ℕ) → length (s ++ blank n) ≡ length s + n
  length-append-blank [] zero = refl
  length-append-blank [] (suc n) = omega (arith, length-append-blank [] n)
  length-append-blank (x ∷ s) n = omega (arith, length-append-blank s n)

  pub length-map-some : (vs : List V) → length (map (λ x. some x) vs) ≡ length vs
  length-map-some [] = refl
  length-map-some (v ∷ vs) = omega (arith, length-map-some vs)

  -- The validators of the answers, in their order.
  abbrev pub joined : List (Done V) → List V
  joined [] = []
  joined ((i, a) ∷ ds) = items a ++ joined ds

  -- An answer has no more validators than the request has IDs.
  abbrev pub IsBounded : (StateId → List Bytes → Answer (List V)) → Type 0
  IsBounded provider =
      (st : StateId) (ids : List Bytes) → length (items (provider st ids)) ≤ length ids
