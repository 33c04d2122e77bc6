-- ===== src/Eth/Queries/Outcomes.antt =====
-- What the batches of eth/query-manager.go hand to the handler of their results.
use node_manager_core.Base.{
  ℕ, zero, suc, ◌-◌, ◌<◌, ◌≡◌, refl, ap, sym, ◌∙◌, Bool, false, List, [], ◌∷◌, ◌++◌, ltb, map,
  append-nil, append_assoc,
}
use node_manager_core.Base.Reorders.{Reorders}
use node_manager_core.Eth.Transactions.{Result, ok, err}
use node_manager_core.Eth.Queries.{
  MulticallLibrary, planned, plan, range, indices, Method, next, add_all, handle_all, flex_batch,
  run_group, flex_batch_query,
}
use node_manager_core.Eth.Queries.Batches.{flat, occurs, once, plan-Covers}

-- A query function adds one call for each index, and a multicall answers its calls in order.
pub record Adds (lib : MulticallLibrary) (q : lib.Caller → ℕ → Method lib lib.Caller) : Type 0 where
  pub outcome : ℕ → Bool  -- whether the call of an index succeeds
  pub pending : lib.Caller → List ℕ
  pub starts :
      (w : lib.World) → (c : lib.Caller) × (lib.new_multi_caller w ≡ (ok c, w)) × (pending c ≡ [])
  pub adds :
      (c : lib.Caller) (j : ℕ) (w : lib.World)
      → (d : lib.Caller) × (q c j w ≡ (ok d, w)) × (pending d ≡ pending c ++ (j ∷ []))
  pub answers :
      (c : lib.Caller) (opts : lib.CallOpts) (w : lib.World)
      → lib.flexible_call false opts c w ≡ (ok (map outcome (pending c)), w)

module _ (lib : MulticallLibrary) where
  -- Handling the results of these indices, without batches.
  unfoldable pub handle_each :
      (Bool → ℕ → Method lib (Unit {0})) → (ℕ → Bool) → List ℕ → Method lib (Unit {0})
  handle_each handle outcome [] w = (ok tt, w)
  handle_each handle outcome (j ∷ js) w =
      next lib (λ x. handle_each handle outcome js) (handle (outcome j) j w)

  next-same :
      {f g : Method lib (Unit {0})} (r : Result (Unit {0}) × lib.World)
      → ((w : lib.World) → f w ≡ g w)
      → next lib (λ x. f) r ≡ next lib (λ x. g) r
  next-same (ok x, w) h = h w
  next-same (err e, w) h = refl

  next-next :
      (r : Result (Unit {0}) × lib.World) (f g : Method lib (Unit {0}))
      → next lib (λ x w. next lib (λ y. g) (f w)) r ≡ next lib (λ y. g) (next lib (λ x. f) r)
  next-next (ok x, w) f g = refl
  next-next (err e, w) f g = refl

  add_all-Adds :
      (q : lib.Caller → ℕ → Method lib lib.Caller) (a : Adds lib q) (js : List ℕ) (c : lib.Caller)
      (w : lib.World)
      → (d : lib.Caller) × (add_all lib q js c w ≡ (ok d, w)) × (a.pending d ≡ a.pending c ++ js)
  unfolding add_all
  add_all-Adds q a [] c w = (c, refl, sym (append-nil (a.pending c)))
  add_all-Adds q a (j ∷ js) c w =
      let (d, e, p) = a.adds c j w in
      let (d', e', p') = add_all-Adds q a js d w in
      (
        d',
        ap (next lib (add_all lib q js)) e ∙ e',
        p' ∙ ap (λ xs. xs ++ js) p ∙ append_assoc (a.pending c) (j ∷ []) js,
      )

  handle_all-range :
      (handle : Bool → ℕ → Method lib (Unit {0})) (outcome : ℕ → Bool) (i n : ℕ) (w : lib.World)
      → handle_all lib handle i (map outcome (range i n)) w
        ≡ handle_each handle outcome (range i n) w
  unfolding handle_all handle_each range
  handle_all-range handle outcome i zero w = refl
  handle_all-range handle outcome i (suc n) w =
      next-same (handle (outcome i) i w) (λ v. handle_all-range handle outcome (suc i) n v)

  flex_batch-handle_each :
      (q : lib.Caller → ℕ → Method lib lib.Caller) (a : Adds lib q)
      (handle : Bool → ℕ → Method lib (Unit {0})) (opts : lib.CallOpts) (b : ℕ × ℕ) (w : lib.World)
      → flex_batch lib q handle opts b w ≡ handle_each handle a.outcome (indices b) w
  unfolding flex_batch
  flex_batch-handle_each q a handle opts (i, max) w =
      let (c, e, p) = a.starts w in
      let (d, e', p') = add_all-Adds q a (indices (i, max)) c w in
      let last : lib.Caller → Method lib (Unit {0}) =
        λ full u. next lib (handle_all lib handle i) (lib.flexible_call false opts full u) in
      ap (next lib (λ mc v. next lib last (add_all lib q (indices (i, max)) mc v))) e
      ∙ ap (next lib last) e'
      ∙ ap (next lib (handle_all lib handle i)) (a.answers d opts w)
      ∙ ap (λ js. handle_all lib handle i (map a.outcome js) w)
          (p' ∙ ap (λ js. js ++ indices (i, max)) p)
      ∙ handle_all-range handle a.outcome i (max - i) w

  handle_each-append :
      (handle : Bool → ℕ → Method lib (Unit {0})) (outcome : ℕ → Bool) (xs ys : List ℕ)
      (w : lib.World)
      → handle_each handle outcome (xs ++ ys) w
        ≡ next lib (λ x. handle_each handle outcome ys) (handle_each handle outcome xs w)
  unfolding handle_each
  handle_each-append handle outcome [] ys w = refl
  handle_each-append handle outcome (x ∷ xs) ys w =
      next-same (handle (outcome x) x w) (λ v. handle_each-append handle outcome xs ys v)
      ∙ next-next (handle (outcome x) x w) (handle_each handle outcome xs)
          (handle_each handle outcome ys)

  abbrev pub NeverFails : (Bool → ℕ → Method lib (Unit {0})) → Type 0
  NeverFails handle = (r : Bool) (j : ℕ) (w : lib.World) → (handle r j w).0 ≡ ok tt

  next-ok :
      (f : Method lib (Unit {0})) (r : Result (Unit {0}) × lib.World)
      → r.0 ≡ ok tt
      → ((w : lib.World) → (f w).0 ≡ ok tt)
      → (next lib (λ x. f) r).0 ≡ ok tt
  next-ok f (ok x, w) e h = h w
  next-ok f (err m, w) e h = e

  handle_each-ok :
      (handle : Bool → ℕ → Method lib (Unit {0})) (outcome : ℕ → Bool) (js : List ℕ) (w : lib.World)
      → NeverFails handle
      → (handle_each handle outcome js w).0 ≡ ok tt
  unfolding handle_each
  handle_each-ok handle outcome [] w h = refl
  handle_each-ok handle outcome (j ∷ js) w h =
      next-ok (handle_each handle outcome js) (handle (outcome j) j w) (h (outcome j) j w)
        (λ v. handle_each-ok handle outcome js v h)

  run_group-step :
      (run : ℕ × ℕ → Method lib (Unit {0})) (g : Method lib (Unit {0})) (bs : List (ℕ × ℕ))
      (r : Result (Unit {0}) × lib.World)
      → r.0 ≡ ok tt
      → ((v : lib.World) → run_group lib run (ok tt) bs v ≡ g v)
      → run_group lib run r.0 bs r.1 ≡ next lib (λ x. g) r
  run_group-step run g bs (ok x, v) e h = h v
  run_group-step run g bs (err m, v) e h = cc

  run_group-flat :
      (q : lib.Caller → ℕ → Method lib lib.Caller) (a : Adds lib q)
      (handle : Bool → ℕ → Method lib (Unit {0})) (opts : lib.CallOpts) (bs : List (ℕ × ℕ))
      (w : lib.World)
      → NeverFails handle
      → run_group lib (flex_batch lib q handle opts) (ok tt) bs w
        ≡ handle_each handle a.outcome (flat bs) w
  unfolding run_group handle_each
  run_group-flat q a handle opts [] w h = refl
  run_group-flat q a handle opts (b ∷ bs) w h =
      let each = handle_each handle a.outcome (indices b) w in
      ap (λ r. run_group lib (flex_batch lib q handle opts) r.0 bs r.1)
        (flex_batch-handle_each q a handle opts b w)
      ∙ run_group-step (flex_batch lib q handle opts) (handle_each handle a.outcome (flat bs)) bs
          each (handle_each-ok handle a.outcome (indices b) w h)
          (λ v. run_group-flat q a handle opts bs v h)
      ∙ sym (handle_each-append handle a.outcome (indices b) (flat bs) w)

-- For a positive batch size the plan of the batches ends, and in whatever order they run, the handler
-- gets, without an error, the outcome of each index below the count once with that index, as if there
-- were no batches: if the query function adds one call for each index, a multicall answers its calls in
-- order and the handler does not fail.
pub flex_batch_query-handle_each :
    (lib : MulticallLibrary) (q : lib.Caller → ℕ → Method lib lib.Caller) (a : Adds lib q)
    (handle : Bool → ℕ → Method lib (Unit {0})) (opts : lib.CallOpts) (count size : ℕ)
    (schedule : List (ℕ × ℕ) → List (ℕ × ℕ)) (w : lib.World)
    → 0 < size
    → NeverFails lib handle
    → ((bs : List (ℕ × ℕ)) → Reorders bs (schedule bs))
    → (bs : List (ℕ × ℕ)) × (js : List ℕ) × (plan count size ≡ planned bs)
      × (flex_batch_query lib (schedule bs) q handle opts w ≡ handle_each lib handle a.outcome js w)
      × ((flex_batch_query lib (schedule bs) q handle opts w).0 ≡ ok tt)
      × ((j : ℕ) → occurs j js ≡ once (ltb j count))
unfolding flex_batch_query
flex_batch_query-handle_each lib q a handle opts count size schedule w k h r =
    let (bs, e, c) = plan-Covers count size k in
    let p = run_group-flat lib q a handle opts (schedule bs) w h in
    (
      bs,
      flat (schedule bs),
      e,
      p,
      ap (λ x. x.0) p ∙ handle_each-ok lib handle a.outcome (flat (schedule bs)) w h,
      c (schedule bs) (r bs),
    )
