-- ===== src/Services.antt =====
-- node/services/manager.go, function-runners.go and the IClientManager parts of ec-manager.go and
-- bn-manager.go: a primary and an optional fallback client, and the runner that sends each request to
-- the first client that is ready.
pub mod BeaconNode
pub mod Execution
pub mod Failover
pub mod Sequences
pub mod Status
use node_manager_core.Base.{
  ℕ, zero, suc, String, Bool, true, false, Option, none, some, if◌then◌else◌, is_some, ◌||◌,
}

-- A Go `error` value, as far as the runners look into it: `errors.As` walks the tree of wrapped and
-- joined errors. The last two are the messages that the runner makes up.
pub data Error : Type 0 where
  plain : String → Error
  errno : ℕ → Error
  net_error : String → Error
  wrapped : String → Error → Error
  joined : String → Error → Error → Error
  all_failed : String → Error
  none_ready : String → Error

-- What a call gives back: a value, an error, or a Go panic.
pub data Outcome {ℓ} (A : Type ℓ) : Type ℓ where
  ok : A → Outcome A
  err : Error → Outcome A
  panic : Outcome A

unfoldable pub is_disconnected : Error → Bool
is_disconnected (errno n) = true
is_disconnected (net_error s) = true
is_disconnected (wrapped s e) = is_disconnected e
is_disconnected (joined s e f) = is_disconnected e || is_disconnected f
is_disconnected (plain s) = false
is_disconnected (all_failed s) = false
is_disconnected (none_ready s) = false

pub record Manager (C : Type 0) : Type 0 where
  pub primary : C
  pub fallback : Option C
  pub primary_ready : Bool
  pub fallback_ready : Bool
  pub expected_chain_id : ℕ
  pub fallback_enabled : Bool
  pub type_name : String

module _ {C : Type 0} where
  unfoldable pub new_manager : C → ℕ → String → Manager C
  new_manager client chain name = record {
    primary = client;
    fallback = none;
    primary_ready = true;
    fallback_ready = false;
    expected_chain_id = chain;
    fallback_enabled = false;
    type_name = name;
  }

  unfoldable pub new_manager_with_fallback : C → C → ℕ → String → Manager C
  new_manager_with_fallback client other chain name = record {
    primary = client;
    fallback = some other;
    primary_ready = true;
    fallback_ready = true;
    expected_chain_id = chain;
    fallback_enabled = true;
    type_name = name;
  }

  unfoldable pub is_fallback_enabled : Manager C → Bool
  is_fallback_enabled m = is_some m.fallback

  unfoldable pub set_primary_ready : Manager C → Bool → Manager C
  set_primary_ready m ready = record m { primary_ready = ready }

  unfoldable pub set_fallback_ready : Manager C → Bool → Manager C
  set_fallback_ready m ready = record m { fallback_ready = ready }

-- A request: what the call on a client gives, and how it changes the world outside the manager.
abbrev pub Request : Type 0 → Type 0 → Type 0 → Type 0
Request C W R = C → W → Outcome R × W

abbrev pub Run : Type 0 → Type 0 → Type 0 → Type 0
Run C W R = Outcome R × Manager C × W

module _ {C W R : Type 0} where
  -- The part behind `if m.IsFallbackReady()`. A call on a nil client panics.
  after_fallback : Manager C → Outcome R × W → Run C W R
  after_fallback m (ok r, w) = (ok r, m, w)
  after_fallback m (err e, w) =
      if is_disconnected e
      then (err (all_failed m.type_name), set_fallback_ready m false, w)
      else (err e, m, w)
  after_fallback m (panic, w) = (panic, m, w)

  call_fallback : Option C → Request C W R → Manager C → W → Run C W R
  unfolding after_fallback
  call_fallback none f m w = (panic, m, w)
  call_fallback (some c) f m w = after_fallback m (f c w)

  use_fallback : Request C W R → Manager C → W → Run C W R
  unfolding call_fallback
  use_fallback f m w =
      if m.fallback_ready
      then call_fallback m.fallback f m w
      else (err (none_ready m.type_name), m, w)

  -- The part behind `if m.IsPrimaryReady()`; `retry` is the function's call of itself.
  after_primary :
      (Manager C → W → Option (Run C W R)) → Manager C → Outcome R × W → Option (Run C W R)
  after_primary retry m (ok r, w) = some (ok r, m, w)
  after_primary retry m (err e, w) =
      if is_disconnected e
      then (if is_fallback_enabled m
          then retry (set_primary_ready m false) w
          else some (err (all_failed m.type_name), set_primary_ready m false, w))
      else some (err e, m, w)
  after_primary retry m (panic, w) = some (panic, m, w)

  -- `runFunction1` calls itself after a disconnection; `none` means that the fuel ran out.
  unfoldable pub attempt : ℕ → Request C W R → Manager C → W → Option (Run C W R)
  unfolding is_disconnected is_fallback_enabled set_primary_ready set_fallback_ready use_fallback
      after_primary
  attempt zero f m w = none
  attempt (suc fuel) f m w =
      let rest = after_primary (attempt fuel f) m (f m.primary w) in
      if m.primary_ready then rest else some (use_fallback f m w)

  -- `Failover.run_total` shows that two rounds of fuel are enough, so the first clause is never used.
  abbrev or_panic : Manager C → W → Option (Run C W R) → Run C W R
  or_panic m w none = (panic, m, w)
  or_panic m w (some r) = r

  unfoldable pub run_function1 : Request C W R → Manager C → W → Run C W R
  unfolding attempt
  run_function1 f m w = or_panic m w (attempt 2 f m w)

-- A request with no output but its error, and one with two outputs, packed into one output.
unfoldable pub run_function0 :
    {C W : Type 0} → (C → W → Outcome (Unit {0}) × W) → Manager C → W → Run C W (Unit {0})
unfolding run_function1
run_function0 f m w = run_function1 f m w

unfoldable pub run_function2 :
    {C W A B : Type 0} → (C → W → Outcome (A × B) × W) → Manager C → W → Run C W (A × B)
unfolding run_function1
run_function2 f m w = run_function1 f m w
