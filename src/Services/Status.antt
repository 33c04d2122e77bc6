-- ===== src/Services/Status.antt =====
-- The status checks of node/services: `checkEcStatus` and `CheckStatus` of ec-manager.go,
-- `checkBcStatus` and `CheckStatus` of bn-manager.go, `IsSyncWithinThreshold` of utils.go, and the
-- reports of api/types/status.go.
pub mod Readiness
pub mod Managers
use node_manager_core.Base.{
  ℕ, ◌*◌, ◌+◌, ◌%◌, ◌^◌, Bool, true, false, Option, none, some, if◌then◌else◌, ltb, ◌==◌, ◌&&◌, not,
  is_some, ◌>>=◌,
}
use mathlib.Core.Option
use node_manager_core.Services.{Error, Outcome, ok, err, panic, Manager}

-- The text in `ClientStatus.Error`; an empty text is `none`.
pub data StatusError : Type 0 where
  chain_id_check : Error → StatusError
  sync_check : Error → StatusError
  up_to_date_check : Error → StatusError
  stale : ℕ → StatusError
  wrong_chain : ℕ → ℕ → StatusError

-- A sync progress: a quotient of two counts, kept exact where the source rounds to a float64.
pub record Progress : Type 0 where
  pub current : ℕ
  pub highest : ℕ

abbrev pub no_progress : Progress
no_progress = record { current = 0; highest = 1 }

abbrev pub full_progress : Progress
full_progress = record { current = 1; highest = 1 }

pub record ClientStatus : Type 0 where
  pub is_working : Bool
  pub is_synced : Bool
  pub sync_progress : Progress
  pub chain_id : ℕ
  pub error : Option StatusError

abbrev pub blank_status : ClientStatus
blank_status = record {
  is_working = false;
  is_synced = false;
  sync_progress = no_progress;
  chain_id = 0;
  error = none;
}

pub record ClientManagerStatus : Type 0 where
  pub primary_client_status : ClientStatus
  pub fallback_enabled : Bool
  pub fallback_client_status : ClientStatus

-- What an execution client answers to the three calls of a check: its chain ID (which may be nil),
-- its sync progress (nil when it says that it is done), and the time in its latest header. `none`
-- as a whole answer is a call that panics.
pub record ExecutionAnswers : Type 0 where
  pub chain_id : Outcome (Option ℕ)
  pub sync_progress : Outcome (Option Progress)
  pub latest_block_time : Outcome ℕ

-- A beacon node's answers: the chain ID of its deposit contract, and whether it is syncing, with its
-- progress.
pub record BeaconAnswers : Type 0 where
  pub deposit_chain_id : Outcome ℕ
  pub sync_status : Outcome (Bool × Progress)

abbrev pub nanoseconds : ℕ
nanoseconds = 1000000000

-- `ethClientRecentBlockThreshold`, five minutes.
abbrev pub recent_block_threshold : ℕ
recent_block_threshold = 300 * nanoseconds

-- `time.Since(blockTime) < threshold` at the clock `now`, in nanoseconds; a timestamp past int64 is
-- read as a time before 1970. The wrap inside `time.Unix` for the last timestamps below 2 ^ 63, whose
-- seconds since year 1 pass int64, is left out.
unfoldable pub is_within_threshold : ℕ → ℕ → Bool
is_within_threshold now timestamp =
    ltb timestamp (2 ^ 63) && ltb now (timestamp * nanoseconds + recent_block_threshold)

-- `float64(current) / float64(highest)`, cut off at 1, and 0 for 0 / 0.
unfoldable pub clamp_progress : Progress → Progress
clamp_progress p =
    if p.highest == 0
    then (if p.current == 0 then no_progress else full_progress)
    else if ltb p.highest p.current
    then full_progress
    else p

-- A check can panic where a client does: then it gives `none`.
module _ (now : ℕ) (answers : ExecutionAnswers) where
  up_to_date_status : ℕ → Outcome ℕ → Option ClientStatus
  unfolding is_within_threshold
  up_to_date_status chain (err e) =
      some (record blank_status { chain_id = chain; error = some (up_to_date_check e) })
  up_to_date_status chain panic = none
  up_to_date_status chain (ok t) =
      if is_within_threshold now t
      then some (record blank_status {
        chain_id = chain;
        is_working = true;
        is_synced = true;
        sync_progress = full_progress;
      })
      else some
          (record blank_status { chain_id = chain; is_working = true; error = some (stale t) })

  sync_status_of : ℕ → Outcome (Option Progress) → Option ClientStatus
  unfolding up_to_date_status clamp_progress
  sync_status_of chain (err e) =
      some (record blank_status { chain_id = chain; error = some (sync_check e) })
  sync_status_of chain panic = none
  sync_status_of chain (ok none) = up_to_date_status chain answers.latest_block_time
  sync_status_of chain (ok (some p)) = some (record blank_status {
    chain_id = chain;
    is_working = true;
    sync_progress = clamp_progress p;
  })

  chain_status : Outcome (Option ℕ) → Option ClientStatus
  unfolding sync_status_of
  chain_status (err e) = some (record blank_status { error = some (chain_id_check e) })
  chain_status panic = none
  chain_status (ok none) = sync_status_of 0 answers.sync_progress
  chain_status (ok (some c)) = sync_status_of (c % 2 ^ 64) answers.sync_progress

  unfoldable pub check_ec_status : Bool → Option ClientStatus
  unfolding chain_status
  check_ec_status true = chain_status answers.chain_id
  check_ec_status false = sync_status_of 0 answers.sync_progress

module _ (answers : BeaconAnswers) where
  beacon_sync_status : ℕ → Outcome (Bool × Progress) → Option ClientStatus
  beacon_sync_status chain (err e) =
      some (record blank_status { chain_id = chain; error = some (sync_check e) })
  beacon_sync_status chain panic = none
  beacon_sync_status chain (ok (syncing, p)) =
      if not syncing
      then some (record blank_status {
        chain_id = chain;
        is_working = true;
        is_synced = true;
        sync_progress = full_progress;
      })
      else some (record blank_status { chain_id = chain; is_working = true; sync_progress = p })

  deposit_chain_status : Outcome ℕ → Option ClientStatus
  unfolding beacon_sync_status
  deposit_chain_status (err e) = some (record blank_status { error = some (chain_id_check e) })
  deposit_chain_status panic = none
  deposit_chain_status (ok c) = beacon_sync_status (c % 2 ^ 64) answers.sync_status

  unfoldable pub check_bc_status : Bool → Option ClientStatus
  unfolding deposit_chain_status
  check_bc_status true = deposit_chain_status answers.deposit_chain_id
  check_bc_status false = beacon_sync_status 0 answers.sync_status

-- The test that follows a check: a client on another chain than the expected one gets an error and is
-- not ready; any other is ready if it works and is synced.
unfoldable pub judge : Bool → ℕ → ClientStatus → ClientStatus × Bool
judge check_chain_ids expected st =
    if check_chain_ids && not (is_some st.error) && not (st.chain_id == expected)
    then (record st { error = some (wrong_chain st.chain_id expected) }, false)
    else (st, st.is_working && st.is_synced)

module _ {C : Type 0} (check : C → Bool → Option ClientStatus) where
  check_client : Option C → Bool → ℕ → Option (ClientStatus × Bool)
  unfolding judge
  check_client none check_chain_ids expected = none
  check_client (some c) check_chain_ids expected =
      Option.map (judge check_chain_ids expected) (check c check_chain_ids)

  -- Without a fallback its status is blank, and it is not ready.
  check_fallback : Manager C → Bool → Option (ClientStatus × Bool)
  unfolding check_client
  check_fallback m check_chain_ids =
      if m.fallback_enabled
      then check_client m.fallback check_chain_ids m.expected_chain_id
      else some (blank_status, false)

  report : Manager C → ClientStatus × Bool → ClientStatus × Bool → ClientManagerStatus × Manager C
  report m (st, ready) (st', ready') = (
    record {
      primary_client_status = st;
      fallback_enabled = m.fallback_enabled;
      fallback_client_status = st';
    },
    record m { primary_ready = ready; fallback_ready = ready' },
  )

  -- Both managers' `CheckStatus`, over the check of one client. `none` is a panic of a client, or a
  -- call on a nil one.
  unfoldable pub check_status : Manager C → Bool → Option (ClientManagerStatus × Manager C)
  unfolding check_client check_fallback report
  check_status m check_chain_ids = do
    first ← check_client (some m.primary) check_chain_ids m.expected_chain_id
    second ← check_fallback m check_chain_ids
    some (report m first second)

unfoldable pub ec_check_status :
    {C : Type 0}
    → ℕ
    → (C → ExecutionAnswers)
    → Manager C
    → Bool
    → Option (ClientManagerStatus × Manager C)
unfolding check_status check_ec_status
ec_check_status now ask = check_status (λ c. check_ec_status now (ask c))

unfoldable pub bc_check_status :
    {C : Type 0} → (C → BeaconAnswers) → Manager C → Bool → Option (ClientManagerStatus × Manager C)
unfolding check_status check_bc_status
bc_check_status ask = check_status (λ c. check_bc_status (ask c))
