-- ===== src/Eth/Queries.antt =====
-- eth/query-manager.go: multicalls, in one go and in batches. Counts and batch sizes are far below 2 ^ 63.
pub mod Batches
pub mod Outcomes
use node_manager_core.Base.{
  ℕ, zero, suc, ◌+◌, ◌-◌, String, Bool, true, false, Option, none, some, List, [], ◌∷◌, ltb,
  if◌then◌else◌,
}
use node_manager_core.Eth.Transactions.{Result, ok, err}

-- The library batch-query, with what it is called with; `World` is all that calls may change.
pub record MulticallLibrary : Type 1 where
  pub World : Type 0
  pub Caller : Type 0
  pub CallOpts : Type 0
  pub new_multi_caller : World → Result Caller × World
  pub flexible_call : Bool → CallOpts → Caller → World → Result (List Bool) × World

-- The end of the batches: they are planned, or the loop over them never ends.
pub data Planned : Type 0 where
  planned : List (ℕ × ℕ) → Planned
  endless : Planned

abbrev pub plan_more : ℕ × ℕ → Planned → Planned
plan_more b (planned bs) = planned (b ∷ bs)
plan_more b endless = endless

-- The bounds of the batches; the fuel is the rounds that the loop may take.
unfoldable pub plan_from : ℕ → ℕ → ℕ → ℕ → Planned
plan_from count size zero i = if ltb i count then endless else planned []
plan_from count size (suc fuel) i =
    let rest = plan_from count size fuel (i + size) in
    if ltb i count
    then plan_more (i, if ltb count (i + size) then count else i + size) rest
    else planned []

unfoldable pub plan : ℕ → ℕ → Planned
unfolding plan_from
plan count size = plan_from count size count 0

-- The indices of a batch.
unfoldable pub range : ℕ → ℕ → List ℕ
range i zero = []
range i (suc n) = i ∷ range (suc i) n

abbrev pub indices : ℕ × ℕ → List ℕ
indices (i, max) = range i (max - i)

module _ (lib : MulticallLibrary) where
  abbrev pub Method : Type 0 → Type 0
  Method A = lib.World → Result A × lib.World

  abbrev pub next : {A B : Type 0} → (A → Method B) → Result A × lib.World → Result B × lib.World
  next f (ok a, w) = f a w
  next f (err e, w) = (err e, w)

  -- An optional function and a list of objects add their calls to a multicall.
  abbrev pub Adder : Type 0
  Adder = lib.Caller → Method lib.Caller

  abbrev pub run_query : Option Adder → Adder
  run_query none mc w = (ok mc, w)
  run_query (some q) mc w = q mc w

  unfoldable pub add_queryables_to_multicall :
      List (lib.Caller → lib.Caller) → lib.Caller → lib.Caller
  add_queryables_to_multicall [] mc = mc
  add_queryables_to_multicall (q ∷ qs) mc = add_queryables_to_multicall qs (q mc)

  unfoldable pub flex_query :
      Option Adder → lib.CallOpts → List (lib.Caller → lib.Caller) → Method (List Bool)
  unfolding add_queryables_to_multicall
  flex_query q opts queryables w =
      next
        (λ mc v.
          next
            (λ full u. lib.flexible_call false opts (add_queryables_to_multicall queryables full) u)
            (run_query q mc v))
        (lib.new_multi_caller w)

  unfoldable pub query :
      Option Adder → lib.CallOpts → List (lib.Caller → lib.Caller) → Method (Unit {0})
  unfolding add_queryables_to_multicall
  query q opts queryables w =
      next
        (λ mc v.
          next
            (λ full u.
              next (λ results x. (ok tt, x))
                (lib.flexible_call true opts (add_queryables_to_multicall queryables full) u))
            (run_query q mc v))
        (lib.new_multi_caller w)

  -- The calls of a batch are added one index after the other.
  unfoldable pub add_all :
      (lib.Caller → ℕ → Method lib.Caller) → List ℕ → lib.Caller → Method lib.Caller
  add_all q [] mc w = (ok mc, w)
  add_all q (j ∷ js) mc w = next (add_all q js) (q mc j w)

  -- The results of a batch that begins at an index.
  unfoldable pub handle_all : (Bool → ℕ → Method (Unit {0})) → ℕ → List Bool → Method (Unit {0})
  handle_all handle i [] w = (ok tt, w)
  handle_all handle i (r ∷ rs) w = next (λ x. handle_all handle (suc i) rs) (handle r i w)

  unfoldable pub flex_batch :
      (lib.Caller → ℕ → Method lib.Caller)
      → (Bool → ℕ → Method (Unit {0}))
      → lib.CallOpts
      → ℕ × ℕ
      → Method (Unit {0})
  unfolding add_all handle_all
  flex_batch q handle opts (i, max) w =
      next
        (λ mc v.
          next (λ full u. next (handle_all handle i) (lib.flexible_call false opts full u))
            (add_all q (indices (i, max)) mc v))
        (lib.new_multi_caller w)

  unfoldable pub batch :
      (lib.Caller → ℕ → Method lib.Caller) → lib.CallOpts → ℕ × ℕ → Method (Unit {0})
  unfolding add_all
  batch q opts (i, max) w =
      next
        (λ mc v.
          next (λ full u. next (λ results x. (ok tt, x)) (lib.flexible_call true opts full u))
            (add_all q (indices (i, max)) mc v))
        (lib.new_multi_caller w)

  -- The error group runs every batch and keeps the error that comes first.
  abbrev pub keep_first :
      Result (Unit {0}) → Result (Unit {0}) × lib.World → Result (Unit {0}) × lib.World
  keep_first (err e) (r, w) = (err e, w)
  keep_first (ok x) r = r

  unfoldable pub run_group :
      (ℕ × ℕ → Method (Unit {0})) → Result (Unit {0}) → List (ℕ × ℕ) → Method (Unit {0})
  run_group run r [] w = (r, w)
  run_group run r (b ∷ bs) w = let x = keep_first r (run b w) in run_group run x.0 bs x.1

  -- The order is the one in which the batches run, each from its start to its end before the next: the
  -- steps of batches that run at the same time do not mix. The limit of concurrent calls is not 0; with
  -- that limit the source waits for ever.
  unfoldable pub flex_batch_query :
      List (ℕ × ℕ)
      → (lib.Caller → ℕ → Method lib.Caller)
      → (Bool → ℕ → Method (Unit {0}))
      → lib.CallOpts
      → Method (Unit {0})
  unfolding run_group flex_batch
  flex_batch_query order q handle opts w = run_group (flex_batch q handle opts) (ok tt) order w

  unfoldable pub batch_query :
      List (ℕ × ℕ) → (lib.Caller → ℕ → Method lib.Caller) → lib.CallOpts → Method (Unit {0})
  unfolding run_group batch
  batch_query order q opts w = run_group (batch q opts) (ok tt) order w
