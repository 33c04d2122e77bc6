-- ===== src/Utils/Input/Lists.antt =====
-- The comma-delimited lists of utils/input/validation.go.
use node_manager_core.Base.{
  ℕ, suc, ◌≡◌, refl, ap, sym, ◌∙◌, ◌↔◌, ◌==◌, subst, false, List, [], ◌∷◌, ◌++◌, if◌then◌else◌, All,
  arith, Bool-cases, inl, inr,
}
use node_manager_core.Utils.Hex.{Bytes}
use node_manager_core.Utils.Input.{
  Checked, valid, invalid, split, in_front, trim_space, BatchChecked, all_valid, invalid_at,
  validated, validate_from, validate_batch,
}

abbrev pub HasNoComma : Bytes → Type 0
HasNoComma x = All (λ c. (c == b',') ≡ false) x

-- One element or more, with commas between them.
abbrev pub join : Bytes → List Bytes → Bytes
join x [] = x
join x (y ∷ ys) = x ++ (b',' ∷ join y ys)

abbrev pub IsNonempty : List Bytes → Type 0
IsNonempty xs = (x : Bytes) × (ys : List Bytes) × (xs ≡ x ∷ ys)

join-in_front : (c : ℕ) (x : Bytes) (ys : List Bytes) → join (c ∷ x) ys ≡ c ∷ join x ys
join-in_front c x [] = refl
join-in_front c x (y ∷ ys) = refl

-- A text is its elements, which have no comma, with commas between them.
Splits : Bytes → List Bytes → Type 0
Splits s xs =
    (x : Bytes) × (ys : List Bytes) × (xs ≡ x ∷ ys) × (join x ys ≡ s) × All HasNoComma (x ∷ ys)

Splits-step :
    (c : ℕ) (s : Bytes) (xs : List Bytes)
    → Splits s xs
    → Splits (c ∷ s) (if c == b',' then [] ∷ xs else in_front c xs)
unfolding Splits
Splits-step c s xs (x, ys, e, j, a) = elim (Bool-cases (c == b',')) [
  | inl h ↦
      let d : c ≡ b',' = ground (arith, h) in
      rw h (
        [],
        xs,
        refl,
        ap (λ zs. join [] zs) e ∙ ap (λ t. b',' ∷ t) j ∙ ap (λ z. z ∷ s) (sym d),
        (tt, subst (All HasNoComma) (sym e) a),
      )
  | inr h ↦
      rw h (c ∷ x, ys, ap (in_front c) e, join-in_front c x ys ∙ ap (λ t. c ∷ t) j, ((h, a.0), a.1))
]

split-Splits : (s : Bytes) → Splits s (split s)
unfolding split Splits
split-Splits [] = ([], [], refl, refl, (tt, tt))
split-Splits (c ∷ s) = Splits-step c s (split s) (split-Splits s)

split-last : (x : Bytes) → HasNoComma x → split x ≡ x ∷ []
unfolding split
split-last [] h = refl
split-last (c ∷ x) (h, k) = rw h (ap (in_front c) (split-last x k))

split-comma : (x s : Bytes) → HasNoComma x → split (x ++ (b',' ∷ s)) ≡ x ∷ split s
unfolding split
split-comma [] s h = refl
split-comma (c ∷ x) s (h, k) = rw h (ap (in_front c) (split-comma x s k))

split-join : (x : Bytes) (ys : List Bytes) → All HasNoComma (x ∷ ys) → split (join x ys) ≡ x ∷ ys
split-join x [] (h, k) = split-last x h
split-join x (y ∷ ys) (h, k) = split-comma x (join y ys) h ∙ ap (λ zs. x ∷ zs) (split-join y ys k)

module _ {A : Type 0} (validate : Bytes → Checked A) where
  -- Each element, without the blanks around it, gives its result.
  abbrev pub Each : List Bytes → List A → Type 0
  Each [] [] = Unit
  Each [] (r ∷ rs) = ⊥
  Each (x ∷ xs) [] = ⊥
  Each (x ∷ xs) (r ∷ rs) = (validate (trim_space x) ≡ valid r) × Each xs rs

  step-Each :
      (i : ℕ) (x : Bytes) (xs : List Bytes) (rs : List A) (c : Checked A) (b : BatchChecked A)
      → validate (trim_space x) ≡ c
      → ((ts : List A) → b ≡ all_valid ts → Each xs ts)
      → validated i c b ≡ all_valid rs
      → Each (x ∷ xs) rs
  step-Each i x xs rs (invalid e) b p k h = cc
  step-Each i x xs rs (valid a) (invalid_at j e) p k h = cc
  step-Each i x xs [] (valid a) (all_valid ts) p k h = cc
  step-Each i x xs (r ∷ rs) (valid a) (all_valid ts) p k h =
      let d : a ≡ r = cc in let e : ts ≡ rs = cc in (p ∙ ap valid d, k rs (ap all_valid e))

  validate_from-Each :
      (i : ℕ) (xs : List Bytes) (rs : List A)
      → validate_from validate i xs ≡ all_valid rs
      → Each xs rs
  unfolding validate_from
  validate_from-Each i [] [] h = tt
  validate_from-Each i [] (r ∷ rs) h = cc
  validate_from-Each i (x ∷ xs) rs h =
      step-Each i x xs rs (validate (trim_space x)) (validate_from validate (suc i) xs) refl
        (λ ts e. validate_from-Each (suc i) xs ts e) h

  Each-validate_from :
      (i : ℕ) (xs : List Bytes) (rs : List A)
      → Each xs rs
      → validate_from validate i xs ≡ all_valid rs
  unfolding validate_from
  Each-validate_from i [] [] h = refl
  Each-validate_from i [] (r ∷ rs) h = elim h [ ]
  Each-validate_from i (x ∷ xs) [] h = elim h [ ]
  Each-validate_from i (x ∷ xs) (r ∷ rs) (h, k) = rw (h, Each-validate_from (suc i) xs rs k) refl

-- A batch is valid with these results exactly when its text is one element or more with commas between
-- them, where no element has a comma, and each gives its result when the blanks around it are cut off.
pub validate_batch_iff :
    {A : Type 0} (validate : Bytes → Checked A) (value : Bytes) (rs : List A)
    → (validate_batch validate value ≡ all_valid rs) ↔ (
        (x : Bytes) × (ys : List Bytes) × (join x ys ≡ value)
        × All HasNoComma (x ∷ ys)
        × Each validate (x ∷ ys) rs)
unfolding validate_batch Splits
validate_batch_iff validate value rs = (
  λ h.
      let (x, ys, e, j, a) = split-Splits value in
      (
        x,
        ys,
        j,
        a,
        validate_from-Each validate 0 (x ∷ ys) rs (ap (validate_from validate 0) (sym e) ∙ h),
      ),
  λ (x, ys, j, a, k).
      ap (λ s. validate_from validate 0 (split s)) (sym j)
      ∙ ap (validate_from validate 0) (split-join x ys a)
      ∙ Each-validate_from validate 0 (x ∷ ys) rs k,
)
