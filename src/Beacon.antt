-- ===== src/Beacon.antt =====
-- `getValidatorsByOpts` of beacon/client/std-client.go: a list of validators is requested in batches that
-- run at the same time, and the answers are put together in the order of the request. The provider of
-- the API (HTTP and JSON) is a parameter.
pub mod Batches
pub mod Fetching
pub mod Slots
pub mod Statuses
pub mod Blocks
pub mod Requests
use node_manager_core.Utils.Hex.{Bytes}
use node_manager_core.Base.{
  ℕ, zero, suc, ◌+◌, ◌*◌, ◌%◌, ◌^◌, String, Option, none, some, List, [], ◌∷◌, map, take, drop,
  length, ◌>>=◌,
}

-- What a call of the provider gives: a value or an error.
pub data Answer (A : Type 0) : Type 0 where
  answered : A → Answer A
  failed : String → Answer A

-- A number is the 64-bit word that the source converts to int64 and prints.
pub data StateId : Type 0 where
  head : StateId
  at_slot : ℕ → StateId

pub record ValidatorStatusOptions : Type 0 where
  pub epoch : Option ℕ
  pub slot : Option ℕ

-- The state ID of the options; `spec` is the answer with the slots per epoch.
slot_of_epoch : Answer ℕ → ℕ → Answer StateId
slot_of_epoch (failed e) epoch = failed e
slot_of_epoch (answered slots_per_epoch) epoch =
    answered (at_slot (epoch * slots_per_epoch % 2 ^ 64))

state_of : Answer ℕ → Option ℕ → Option ℕ → Answer StateId
unfolding slot_of_epoch
state_of spec (some slot) epoch = answered (at_slot slot)
state_of spec none (some epoch) = slot_of_epoch spec epoch
state_of spec none none = failed "must specify a slot or epoch when calling getValidatorsByOpts"

unfoldable pub state_id : Answer ℕ → Option ValidatorStatusOptions → Answer StateId
unfolding state_of
state_id spec none = answered head
state_id spec (some opts) = state_of spec opts.slot opts.epoch

-- `MaxRequestValidatorsCount`.
abbrev pub max_request_validators_count : ℕ
max_request_validators_count = 600

-- A batch is the position of its first ID, and its IDs.
abbrev pub Batch : Type 0
Batch = ℕ × List Bytes

-- The loop over the batches; its fuel is the number of IDs, each round takes some off.
unfoldable pub batches_from : ℕ → ℕ → ℕ → List Bytes → List Batch
batches_from size zero i ids = []
batches_from size (suc fuel) i [] = []
batches_from size (suc fuel) i (x ∷ ids) =
    (i, take size (x ∷ ids)) ∷ batches_from size fuel (i + size) (drop size (x ∷ ids))

unfoldable pub batches : ℕ → List Bytes → List Batch
unfolding batches_from
batches size ids = batches_from size (length ids) 0 ids

-- The error group keeps the error that comes first.
abbrev pub first : Option String → String → Option String
first none e = some e
first (some e) e' = some e

-- `crashed` is a panic in one of the goroutines.
pub data Fetched (V : Type 0) : Type 0 where
  fetched : List V → Fetched V
  fetch_failed : String → Fetched V
  crashed : Fetched V

module _ {V : Type 0} where
  -- `data` and `validFlags` in one: a slot is filled or not.
  abbrev pub blank : ℕ → List (Option V)
  blank zero = []
  blank (suc n) = none ∷ blank n

  -- Nothing where the index is out of range and the source panics.
  unfoldable pub write_at : ℕ → V → List (Option V) → Option (List (Option V))
  write_at i v [] = none
  write_at zero v (x ∷ s) = some (some v ∷ s)
  write_at (suc i) v (x ∷ s) = write_at i v s >>= (λ s'. some (x ∷ s'))

  unfoldable pub place : ℕ → List V → List (Option V) → Option (List (Option V))
  place i [] s = some s
  place i (v ∷ vs) s = write_at i v s >>= place (suc i) vs

  -- The batches' answers in the order in which they come in.
  unfoldable pub gather :
      List (ℕ × Answer (List V))
      → List (Option V)
      → Option String
      → Option (List (Option V) × Option String)
  gather [] s e = some (s, e)
  gather ((i, failed x) ∷ ds) s e = gather ds s (first e x)
  gather ((i, answered vs) ∷ ds) s e = place i vs s >>= (λ s'. gather ds s' e)

  unfoldable pub clip : List (Option V) → List V
  clip [] = []
  clip (none ∷ s) = clip s
  clip (some v ∷ s) = v ∷ clip s

  unfoldable pub result : Option (List (Option V) × Option String) → Fetched V
  unfolding clip
  result none = crashed
  result (some (s, some e)) = fetch_failed e
  result (some (s, none)) = fetched (clip s)

  unfoldable pub ask_provider :
      (StateId → List Bytes → Answer (List V)) → StateId → List Batch → List (ℕ × Answer (List V))
  ask_provider provider st [] = []
  ask_provider provider st ((i, ids) ∷ bs) = (i, provider st ids) ∷ ask_provider provider st bs

  unfoldable pub fetch :
      (StateId → List Bytes → Answer (List V)) → Answer StateId → List Batch → ℕ → Fetched V
  unfolding ask_provider gather result place write_at
  fetch provider (failed e) order count = fetch_failed e
  fetch provider (answered st) order count =
      result (gather (ask_provider provider st order) (blank count) none)

  -- `schedule` puts the batches of the IDs in the order in which they are finished. The group's limit of
  -- `runtime.NumCPU() / 2` goroutines is taken to be at least one, so that each batch is started; it
  -- then bounds only the orders there are.
  unfoldable pub get_validators_by_opts :
      (StateId → List Bytes → Answer (List V))
      → Answer ℕ
      → Option ValidatorStatusOptions
      → (List Batch → List Batch)
      → List Bytes
      → Fetched V
  unfolding fetch state_id batches
  get_validators_by_opts provider spec opts schedule ids =
      fetch provider (state_id spec opts) (schedule (batches max_request_validators_count ids))
        (length ids)
