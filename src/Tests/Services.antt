-- ===== src/Tests/Services.antt =====
-- The client managers of node/services at concrete inputs. A client is a number; client 0 disconnects.
use node_manager_core.Base.{
  ℕ, zero, suc, ◌*◌, ◌≡◌, ◌≢◌, ◌↔◌, refl, String, true, false, none, some, [], ◌∷◌, map,
}
use node_manager_core.Services.{
  errno, all_failed, none_ready, ok, err, panic, Manager, Request, attempt, run_function1,
  new_manager_with_fallback,
}
use node_manager_core.Services.Failover.{
  IsConsistent, Route, attempt_enough, run_iff_Route, run_function1-ne-panic,
  new_manager_with_fallback-IsConsistent,
}
use node_manager_core.Services.Sequences.{run_all, Lessens, run_all-Lessens, run_all_after_failure}
use node_manager_core.Services.Status.{
  ExecutionAnswers, BeaconAnswers, ec_check_status, bc_check_status, check_status, check_bc_status,
  full_progress, is_within_threshold,
}
use node_manager_core.Services.Status.Readiness.{IsHealthy, IsHealthyBeacon}
use node_manager_core.Services.Status.Managers.{
  Reflects, ec_check_status-Reflects, bc_check_status-Reflects, check_status-IsConsistent,
}

-- The world counts the calls.
abbrev ask : Request ℕ ℕ ℕ
ask zero w = (err (errno 111), suc w)
ask (suc c) w = (ok c, suc w)

abbrev both : Manager ℕ
both = new_manager_with_fallback 0 4 17000 "Execution Client"

abbrev neither : Manager ℕ
neither = new_manager_with_fallback 0 0 17000 "Execution Client"

fails_over : run_function1 ask both 0 ≡ (ok 3, record both { primary_ready = false }, 2)
unfolding run_function1 new_manager_with_fallback
fails_over = refl

attempt_enough_example : attempt 7 ask both 0 ≡ some (run_function1 ask both 0)
attempt_enough_example = attempt_enough ask 5 both 0

run_iff_Route_example :
    Route ask both 0 (ok 3, record both { primary_ready = false }, 2)
    ↔ ((ok 3, record both { primary_ready = false }, 2) ≡ run_function1 ask both 0)
run_iff_Route_example = run_iff_Route ask both 0 (ok 3, record both { primary_ready = false }, 2)

ask-ne-panic : (c w : ℕ) → (ask c w).0 ≢ panic
ask-ne-panic zero w = λ p. cc
ask-ne-panic (suc c) w = λ p. cc

ask-ne-all_failed : (c w : ℕ) (s : String) → (ask c w).0 ≢ err (all_failed s)
ask-ne-all_failed zero w s = λ p. cc
ask-ne-all_failed (suc c) w s = λ p. cc

both-IsConsistent : IsConsistent both
both-IsConsistent = new_manager_with_fallback-IsConsistent 0 4 17000 "Execution Client"

run_function1-ne-panic_example : (run_function1 ask both 0).0 ≢ panic
run_function1-ne-panic_example = run_function1-ne-panic ask both 0 ask-ne-panic both-IsConsistent

run_all-Lessens_example :
    Lessens both (run_all (ask ∷ ask ∷ []) both 0).1
    × IsConsistent (run_all (ask ∷ ask ∷ []) both 0).1
run_all-Lessens_example = run_all-Lessens (ask ∷ ask ∷ []) both 0 both-IsConsistent

run_all_after_failure_example :
    let (o, m', w') = run_function1 ask neither 0 in
    run_all (ask ∷ ask ∷ []) m' w'
    ≡ (map (λ (g : Request ℕ ℕ ℕ). err (none_ready m'.type_name)) (ask ∷ ask ∷ []), m', w')
unfolding run_function1 new_manager_with_fallback
run_all_after_failure_example =
    run_all_after_failure ask (ask ∷ ask ∷ []) neither 0 ask-ne-all_failed
      (new_manager_with_fallback-IsConsistent 0 0 17000 "Execution Client") refl

-- Client 0 is synced on chain 17000; any other is on chain 1.
abbrev answers : ℕ → ExecutionAnswers
answers zero = record {
  chain_id = ok (some 17000);
  sync_progress = ok none;
  latest_block_time = ok 1000;
}
answers (suc c) = record {
  chain_id = ok (some 1);
  sync_progress = ok none;
  latest_block_time = ok 1000;
}

abbrev beacon_answers : ℕ → BeaconAnswers
beacon_answers zero = record {
  deposit_chain_id = ok 17000;
  sync_status = ok (false, full_progress);
}
beacon_answers (suc c) = record {
  deposit_chain_id = ok 17000;
  sync_status = ok (true, full_progress);
}

abbrev checked : Manager ℕ
checked = record both { primary_ready = true; fallback_ready = false }

abbrev now : ℕ
now = 1001 * 1000000000

ec_check_status-Reflects_example : Reflects both checked (λ c. IsHealthy now 17000 (answers c))
unfolding ec_check_status is_within_threshold new_manager_with_fallback
ec_check_status-Reflects_example = ec_check_status-Reflects now answers both _ checked refl

bc_check_status-Reflects_example :
    Reflects both checked (λ c. IsHealthyBeacon 17000 (beacon_answers c))
unfolding bc_check_status new_manager_with_fallback
bc_check_status-Reflects_example = bc_check_status-Reflects beacon_answers both _ checked refl

check_status-IsConsistent_example :
    IsConsistent checked × (checked ≡ record both { primary_ready = true; fallback_ready = false })
unfolding check_status check_bc_status new_manager_with_fallback
check_status-IsConsistent_example =
    check_status-IsConsistent (λ c. check_bc_status (beacon_answers c)) both true _ checked refl
      both-IsConsistent
