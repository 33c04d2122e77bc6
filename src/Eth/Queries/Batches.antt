-- ===== src/Eth/Queries/Batches.antt =====
-- The batches that eth/query-manager.go plans hold every index once.
use node_manager_core.Base.{
  ℕ, zero, suc, ◌+◌, ◌-◌, ◌<◌, ◌≤◌, ◌≡◌, refl, ap, ◌∙◌, Bool, true, false, List, [], ◌∷◌, ◌++◌, ltb,
  leb, ◌==◌, if◌then◌else◌, ◌&&◌, arith, Bool-cases, inl, inr,
}
use node_manager_core.Base.Reorders.{Inserted, here, there, Reorders, nothing, put}
use node_manager_core.Eth.Queries.{Planned, planned, plan_more, plan_from, plan, range, indices}

abbrev pub occurs : ℕ → List ℕ → ℕ
occurs j [] = 0
occurs j (x ∷ xs) = if j == x then suc (occurs j xs) else occurs j xs

-- The indices of batches, one batch after the other.
abbrev pub flat : List (ℕ × ℕ) → List ℕ
flat [] = []
flat (b ∷ bs) = indices b ++ flat bs

occurs-append : (j : ℕ) (xs ys : List ℕ) → occurs j (xs ++ ys) ≡ occurs j xs + occurs j ys
occurs-append j [] ys = omega arith
occurs-append j (x ∷ xs) ys = ground (arith, occurs-append j xs ys)

abbrev pub once : Bool → ℕ
once true = 1
once false = 0

occurs-range : (j i n : ℕ) → occurs j (range i n) ≡ once (leb i j && ltb j (i + n))
unfolding range
occurs-range j i zero = ground arith
occurs-range j i (suc n) = ground (arith, occurs-range j (suc i) n)

occurs-Inserted :
    (j : ℕ) (b : ℕ × ℕ) (ys zs : List (ℕ × ℕ))
    → Inserted b ys zs
    → occurs j (flat zs) ≡ occurs j (indices b) + occurs j (flat ys)
occurs-Inserted j b ys _ (here _) = occurs-append j (indices b) (flat ys)
occurs-Inserted j b _ _ (there y ys zs i) = omega (
  arith,
  occurs-append j (indices y) (flat zs),
  occurs-append j (indices y) (flat ys),
  occurs-Inserted j b ys zs i,
)

occurs-Reorders :
    (j : ℕ) (xs zs : List (ℕ × ℕ)) → Reorders xs zs → occurs j (flat zs) ≡ occurs j (flat xs)
occurs-Reorders j _ _ nothing = refl
occurs-Reorders j _ _ (put x xs ys zs r i) = omega (
  arith,
  occurs-Inserted j x ys zs i,
  occurs-Reorders j xs ys r,
  occurs-append j (indices x) (flat xs),
)

-- A plan whose batches hold the indices from one number up to the count, each once.
abbrev Covers : ℕ → ℕ → Planned → Type 0
Covers count i p =
    (bs : List (ℕ × ℕ)) × (p ≡ planned bs)
    × ((j : ℕ) → occurs j (flat bs) ≡ once (leb i j && ltb j count))

batch-occurs :
    (count size i j : ℕ)
    → i < count
    → 0 < size
    → occurs j (indices (i, if ltb count (i + size) then count else i + size))
        + once (leb (i + size) j && ltb j count)
      ≡ once (leb i j && ltb j count)
batch-occurs count size i j h k = elim (Bool-cases (ltb count (i + size))) [
  | inl e ↦ rw e (ground (arith, h, k, e, occurs-range j i (count - i)))
  | inr e ↦ rw e (ground (arith, h, k, e, occurs-range j i (i + size - i)))
]

more-Covers :
    (count size i : ℕ) (p : Planned)
    → i < count
    → 0 < size
    → Covers count (i + size) p
    → Covers count i (plan_more (i, if ltb count (i + size) then count else i + size) p)
more-Covers count size i p h k (bs, e, c) =
    let b : ℕ × ℕ = (i, if ltb count (i + size) then count else i + size) in
    (
      b ∷ bs,
      ap (plan_more b) e,
      λ j.
          occurs-append j (indices b) (flat bs)
          ∙ ap (λ n. occurs j (indices b) + n) (c j)
          ∙ batch-occurs count size i j h k,
    )

plan_from-Covers :
    (count size fuel i : ℕ)
    → 0 < size
    → count ≤ fuel + i
    → Covers count i (plan_from count size fuel i)
unfolding plan_from
plan_from-Covers count size zero i k h =
    let e : ltb i count ≡ false = ground (arith, h) in rw e ([], refl, λ j. ground (arith, h))
plan_from-Covers count size (suc fuel) i k h = elim (Bool-cases (ltb i count)) [
  | inl e ↦ rw e (
      more-Covers count size i (plan_from count size fuel (i + size)) (ground (arith, e)) k
        (plan_from-Covers count size fuel (i + size) k (omega (arith, h, k))))
  | inr e ↦ rw e ([], refl, λ j. ground (arith, e))
]

-- The plan for a positive batch size ends, and in every order of its batches each index is there once.
pub plan-Covers :
    (count size : ℕ)
    → 0 < size
    → (bs : List (ℕ × ℕ)) × (plan count size ≡ planned bs)
      × ((order : List (ℕ × ℕ))
          → Reorders bs order
          → (j : ℕ) → occurs j (flat order) ≡ once (ltb j count))
unfolding plan
plan-Covers count size k =
    let (bs, e, c) = plan_from-Covers count size count 0 k (omega arith) in
    (bs, e, λ order r j. occurs-Reorders j bs order r ∙ c j ∙ ground arith)
