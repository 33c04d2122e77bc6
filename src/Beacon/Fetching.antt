-- ===== src/Beacon/Fetching.antt =====
-- What `getValidatorsByOpts` returns, whatever the order in which its batches finish.
use node_manager_core.Utils.Hex.{Bytes}
use node_manager_core.Base.{
  ℕ, zero, suc, ◌+◌, ◌-◌, ◌≡◌, ◌<◌, ◌≤◌, refl, sym, ap, ◌∙◌, ◌⊎◌, inl, inr, String, Option, none,
  some, List, [], ◌∷◌, ◌++◌, map, take, drop, length, ◌>>=◌, All, arith, append_assoc, append-nil,
  length-append, length-drop, length-take-le, take-append-drop,
}
use node_manager_core.Beacon.{
  Answer, answered, StateId, Batch, batches, batches_from, blank, place, clip, ask_provider,
  Fetched, fetched, fetch_failed, result, ValidatorStatusOptions, state_id, get_validators_by_opts,
  fetch, max_request_validators_count,
}
use node_manager_core.Base.Reorders.{Inserted, here, there, Reorders, nothing, put}
use node_manager_core.Beacon.Batches.{
  Done, items, first_error, fill, with_error, gather-fill, fill-Reorders, Apart, AllApart,
}
use node_manager_core.Beacon.Slots.{
  place_end, clip-append, clip-some, clip-blank, blank-add, length-append-blank, length-map-some,
  joined, IsBounded,
}

-- The IDs of the batches, in their order.
abbrev pub requested : List Batch → List Bytes
requested [] = []
requested ((i, ids) ∷ bs) = ids ++ requested bs

requested-batches :
    (size fuel i : ℕ) (ids : List Bytes)
    → 0 < size
    → length ids ≤ fuel
    → requested (batches_from size fuel i ids) ≡ ids
unfolding batches_from
requested-batches size zero i [] z l = refl
requested-batches size zero i (x ∷ ids) z l = absurd (omega (arith, l))
requested-batches size (suc fuel) i [] z l = refl
requested-batches size (suc fuel) i (x ∷ ids) z l =
    let all : List Bytes = x ∷ ids in
    ap (λ t. take size all ++ t)
      (requested-batches size fuel (i + size) (drop size all) z
        (omega (arith, z, l, length-drop size all)))
    ∙ take-append-drop size all

module _ {V : Type 0} (provider : StateId → List Bytes → Answer (List V)) (st : StateId)
    (size : ℕ) where
  abbrev answers_from : ℕ → ℕ → List Bytes → List (Done V)
  answers_from fuel i ids = ask_provider provider st (batches_from size fuel i ids)

  from_below :
      (fuel i j : ℕ) (ids : List Bytes)
      → j ≤ i
      → All (λ (d : Done V). j ≤ d.0) (answers_from fuel i ids)
  unfolding ask_provider batches_from
  from_below zero i j ids h = tt
  from_below (suc fuel) i j [] h = tt
  from_below (suc fuel) i j (x ∷ ids) h =
      (h, from_below fuel (i + size) j (drop size (x ∷ ids)) (omega (arith, h)))

  before_later :
      (i k : ℕ) (a : Answer (List V)) (ds : List (Done V))
      → i + length (items a) ≤ k
      → All (λ (d : Done V). k ≤ d.0) ds
      → All (Apart (i, a)) ds
  before_later i k a [] h q = tt
  before_later i k a ((j, b) ∷ ds) h (p, q) = (inl (omega (arith, h, p)), before_later i k a ds h q)

  answers_from-AllApart :
      (fuel i : ℕ) (ids : List Bytes) → IsBounded provider → AllApart (answers_from fuel i ids)
  unfolding ask_provider batches_from
  answers_from-AllApart zero i ids f = tt
  answers_from-AllApart (suc fuel) i [] f = tt
  answers_from-AllApart (suc fuel) i (x ∷ ids) f = (
    before_later i (i + size) (provider st (take size (x ∷ ids))) _
        (omega (arith, f st (take size (x ∷ ids)), length-take-le size (x ∷ ids)))
        (from_below fuel (i + size) (i + size) (drop size (x ∷ ids)) (omega arith)),
    answers_from-AllApart fuel (i + size) (drop size (x ∷ ids)) f,
  )

  ask_provider-Inserted :
      (b : Batch) (bs cs : List Batch)
      → Inserted b bs cs
      → Inserted (b.0, provider st b.1) (ask_provider provider st bs) (ask_provider provider st cs)
  unfolding ask_provider
  ask_provider-Inserted b bs _ (here _) = here _
  ask_provider-Inserted b _ _ (there c bs cs k) = there _ _ _ (ask_provider-Inserted b bs cs k)

  ask_provider-Reorders :
      (bs cs : List Batch)
      → Reorders bs cs
      → Reorders (ask_provider provider st bs) (ask_provider provider st cs)
  unfolding ask_provider
  ask_provider-Reorders _ _ nothing = nothing
  ask_provider-Reorders _ _ (put b bs cs ds r k) =
      put _ _ _ _ (ask_provider-Reorders bs cs r) (ask_provider-Inserted b cs ds k)

  first_slots :
      (ids : List Bytes) (pre : List (Option V))
      → IsBounded provider
      → let vs : List V = items (provider st (take size ids)) in
        place (length pre) vs (pre ++ blank (length ids))
        ≡ some (
            ((pre ++ map (λ x. some x) vs) ++ blank (length (take size ids) - length vs))
            ++ blank (length (drop size ids)))
  first_slots ids pre f =
      let vs : List V = items (provider st (take size ids)) in
      let filled : List (Option V) = pre ++ map (λ x. some x) vs in
      let b = f st (take size ids) in
      let t = length-append (take size ids) (drop size ids) in
      let u = ap length (take-append-drop size ids) in
      let gap = length (take size ids) - length vs in
      let n : length ids ≡ length vs + (gap + length (drop size ids)) = omega (arith, b, t, u) in
      ap (λ k. place (length pre) vs (pre ++ blank k)) n
      ∙ place_end pre vs (gap + length (drop size ids))
      ∙ ap (λ s. some (filled ++ s)) (blank-add gap (length (drop size ids)))
      ∙ ap (λ s. some s) (sym (append_assoc filled (blank gap) (blank (length (drop size ids)))))

  next_start :
      (i : ℕ) (ids : List Bytes) (pre : List (Option V))
      → IsBounded provider
      → length pre ≡ i
      → let vs : List V = items (provider st (take size ids)) in
        (length ((pre ++ map (λ x. some x) vs) ++ blank (length (take size ids) - length vs))
          ≡ i + size)
        ⊎ (length (drop size ids) ≡ 0)
  next_start i ids pre f h =
      let vs : List V = items (provider st (take size ids)) in
      let gap = length (take size ids) - length vs in
      ground (
        arith,
        h,
        f st (take size ids),
        length-append (take size ids) (drop size ids),
        ap length (take-append-drop size ids),
        length-drop size ids,
        length-append-blank (pre ++ map (λ x. some x) vs) gap,
        length-append pre (map (λ x. some x) vs),
        length-map-some vs,
      )

  clip_start :
      (pre : List (Option V)) (vs : List V) (n : ℕ)
      → clip ((pre ++ map (λ x. some x) vs) ++ blank n) ≡ clip pre ++ vs
  clip_start pre vs n =
      clip-append (pre ++ map (λ x. some x) vs) (blank n)
      ∙ ap (λ t. clip (pre ++ map (λ x. some x) vs) ++ t) (clip-blank n)
      ∙ append-nil (clip (pre ++ map (λ x. some x) vs))
      ∙ clip-append pre (map (λ x. some x) vs)
      ∙ ap (λ t. clip pre ++ t) (clip-some vs)

  -- The slots that the rest of the batches fill, and what stays of them.
  abbrev FillsTo : List (Done V) → List (Option V) → List (Option V) → Type 0
  FillsTo ds pre slots =
      (s : List (Option V)) × (fill ds slots ≡ some s) × (clip s ≡ clip pre ++ joined ds)

  no_batches : (pre : List (Option V)) (n : ℕ) → FillsTo [] pre (pre ++ blank n)
  unfolding fill
  no_batches pre n =
      (pre ++ blank n, refl, clip-append pre (blank n) ∙ ap (λ t. clip pre ++ t) (clip-blank n))

  answers_from-FillsTo :
      (fuel i : ℕ) (ids : List Bytes) (pre : List (Option V))
      → 0 < size
      → length ids ≤ fuel
      → IsBounded provider
      → (length pre ≡ i) ⊎ (length ids ≡ 0)
      → FillsTo (answers_from fuel i ids) pre (pre ++ blank (length ids))
  unfolding ask_provider batches_from fill
  answers_from-FillsTo zero i ids pre z l f h = no_batches pre (length ids)
  answers_from-FillsTo (suc fuel) i [] pre z l f h = no_batches pre 0
  answers_from-FillsTo (suc fuel) i (x ∷ ids) pre z l f (inr h) = absurd (omega (arith, h))
  answers_from-FillsTo (suc fuel) i (x ∷ ids) pre z l f (inl h) =
      let all : List Bytes = x ∷ ids in
      let vs : List V = items (provider st (take size all)) in
      let gap = length (take size all) - length vs in
      let pre' : List (Option V) = (pre ++ map (λ y. some y) vs) ++ blank gap in
      let (s, e, c) =
        answers_from-FillsTo fuel (i + size) (drop size all) pre' z
          (omega (arith, z, l, length-drop size all)) f (next_start i all pre f h) in
      let ds = answers_from fuel (i + size) (drop size all) in
      (
        s,
        ap (λ k. place k vs (pre ++ blank (length all)) >>= fill ds) (sym h)
            ∙ ap (λ m. m >>= fill ds) (first_slots all pre f)
            ∙ e,
        c
            ∙ ap (λ t. t ++ joined ds) (clip_start pre vs gap)
            ∙ append_assoc (clip pre) vs (joined ds),
      )

module _ {V : Type 0} where
  -- The first error there was, and with none the validators.
  abbrev pub outcome : Option String → List V → Fetched V
  outcome none vs = fetched vs
  outcome (some e) vs = fetch_failed e

  result-outcome :
      (e : Option String) (s : List (Option V)) (vs : List V)
      → clip s ≡ vs
      → result (with_error e (some s)) ≡ outcome e vs
  unfolding result
  result-outcome none s vs h = ap fetched h
  result-outcome (some e) s vs h = refl

  -- In whatever order the batches finish, no answer is lost, misplaced or written out of range: the
  -- batches request each ID once and in order, and the result is their answers joined in the order of
  -- the request, or the error that came first, if an answer never has more validators than its request
  -- has IDs and the state ID is known.
  pub get_validators_by_opts-Reorders :
      (provider : StateId → List Bytes → Answer (List V)) (spec : Answer ℕ)
      (opts : Option ValidatorStatusOptions) (schedule : List Batch → List Batch) (ids : List Bytes)
      (st : StateId)
      → IsBounded provider
      → Reorders
          (batches max_request_validators_count ids)
          (schedule (batches max_request_validators_count ids))
      → state_id spec opts ≡ answered st
      → (requested (batches max_request_validators_count ids) ≡ ids)
        × (get_validators_by_opts provider spec opts schedule ids
            ≡ outcome
                (first_error none
                  (ask_provider provider st (schedule (batches max_request_validators_count ids))))
                (joined (ask_provider provider st (batches max_request_validators_count ids))))
  unfolding get_validators_by_opts fetch batches
  get_validators_by_opts-Reorders provider spec opts schedule ids st f r h =
      let size = max_request_validators_count in
      let order = schedule (batches max_request_validators_count ids) in
      let ds = answers_from provider st size (length ids) 0 ids in
      let e = first_error none (ask_provider provider st order) in
      let (s, p, c) =
        answers_from-FillsTo provider st size (length ids) 0 ids [] (omega arith) (omega arith) f
          (inl refl) in
      (
        requested-batches size (length ids) 0 ids (omega arith) (omega arith),
        ap (λ a. fetch provider a order (length ids)) h
            ∙ ap result (gather-fill (ask_provider provider st order) (blank (length ids)) none)
            ∙ ap (λ m. result (with_error e m))
                (fill-Reorders ds (ask_provider provider st order) (blank (length ids))
                    (ask_provider-Reorders provider st size (batches_from size (length ids) 0 ids)
                      order r)
                    (answers_from-AllApart provider st size (length ids) 0 ids f)
                  ∙ p)
            ∙ result-outcome e s (joined ds) c,
      )
