-- ===== src/Eth/Gas.antt =====
-- The bounds of the gas limits that eth/tx-manager.go computes.
use node_manager_core.Base.{
  ℕ, ◌<◌, ◌++◌, false, subst, sym, ◌+◌, ◌%◌, ◌^◌, ◌≤◌, ◌≡◌, refl, ◌↔◌, true, String, Option, none,
  some, List, arith, ltb, if◌then◌else◌, Bool-cases, inl, inr, ap, ◌⊎◌,
}
use node_manager_core.Utils.Hex.{Bytes, codes}
use node_manager_core.Eth.Transactions.{
  normalize_revert_message, gas_sim_error_prefix, ChainLibrary, Result, ok, err, SimulationResult,
  gas_limit, TransactOpts, ChainCalls, TransactionManager, get_safe_gas_limit, estimated,
  with_safe_limit, simulate_transaction, create_tx_submission_from_info, call_of,
  create_transaction_info_raw, TransactionSubmission,
}

chosen_iff :
    (bound estimate sum limit : ℕ) (e e' : String)
    → ((if ltb bound estimate then err e else if ltb bound sum then err e' else ok sum) ≡ ok limit)
      ↔ ((estimate ≤ bound) × (limit ≤ bound) × (sum ≡ limit))
chosen_iff bound estimate sum limit e e' = elim (Bool-cases (ltb bound estimate)) [
  | inl h ↦ rw h (λ k. cc, λ (p, q, r). ground (arith, h, p))
  | inr h ↦ rw h (elim (Bool-cases (ltb bound sum)) [
    | inl k ↦ rw k (λ l. cc, λ (p, q, r). ground (arith, k, q, r))
    | inr k ↦ rw k (
      λ l. let m : sum ≡ limit = cc in (ground (arith, h), ground (arith, k, m), m),
      λ (p, q, r). ap ok r,
    )
  ])
]

-- A gas limit is given exactly when the estimate and the sum fit in a block, and it is that sum: the
-- scaled estimate and the buffer, which wraps at 2 ^ 64.
pub get_safe_gas_limit_iff :
    (lib : ChainLibrary) (t : TransactionManager lib) (estimate limit : ℕ)
    → (get_safe_gas_limit lib t estimate ≡ ok limit) ↔ (
        (estimate ≤ gas_limit)
        × (limit ≤ gas_limit)
        × ((lib.scale_up estimate t.multiplier + t.buffer) % 2 ^ 64 ≡ limit))
unfolding get_safe_gas_limit
get_safe_gas_limit_iff lib t estimate limit =
    chosen_iff gas_limit estimate ((lib.scale_up estimate t.multiplier + t.buffer) % 2 ^ 64) limit _
      _

-- What an estimate, or the client's error, leaves in a simulation that was run.
abbrev pub Judges :
    (lib : ChainLibrary) → TransactionManager lib → Result ℕ → SimulationResult → Type 0
Judges lib t (err e) r =
    (r.simulation_error
      ≡ some (gas_sim_error_prefix ++ codes ": " ++ normalize_revert_message (codes e)))
    × (r.estimated_gas_limit ≡ 0)
    × (r.safe_gas_limit ≡ 0)
Judges lib t (ok estimate) r =
    let sum : ℕ = (lib.scale_up estimate t.multiplier + t.buffer) % 2 ^ 64 in
    ((gas_limit < estimate) ⊎ (gas_limit < sum))
      × ((e : Bytes) × (r.simulation_error ≡ some e))
      × (r.estimated_gas_limit ≡ 0)
      × (r.safe_gas_limit ≡ 0)
    ⊎ (estimate ≤ gas_limit)
      × (sum ≤ gas_limit)
      × (r.simulation_error ≡ none)
      × (r.estimated_gas_limit ≡ estimate)
      × (r.safe_gas_limit ≡ sum)

-- Without options nothing is simulated; with them the client is asked for the estimate of the call.
abbrev pub IsSimulation :
    (lib : ChainLibrary)
    → ChainCalls lib
    → TransactionManager lib
    → lib.Address
    → Option (TransactOpts lib)
    → List ℕ
    → lib.World
    → SimulationResult
    → Type 0
IsSimulation lib calls t to none bytes w r =
    (r.is_simulated ≡ false)
    × (r.simulation_error ≡ none)
    × (r.estimated_gas_limit ≡ 0)
    × (r.safe_gas_limit ≡ 0)
IsSimulation lib calls t to (some opts) bytes w r =
    (r.is_simulated ≡ true) × Judges lib t (calls.estimate (call_of lib to opts bytes) w).0 r

refused :
    (bound estimate sum : ℕ) (e e' e'' : String)
    → ((if ltb bound estimate then err e else if ltb bound sum then err e' else ok sum) ≡ err e'')
    → (bound < estimate) ⊎ (bound < sum)
refused bound estimate sum e e' e'' h = ground (arith, h)

with_safe_limit-Judges :
    (lib : ChainLibrary) (t : TransactionManager lib) (estimate : ℕ) (r : Result ℕ)
    → get_safe_gas_limit lib t estimate ≡ r
    → ((with_safe_limit lib estimate r).is_simulated ≡ true)
      × Judges lib t (ok estimate) (with_safe_limit lib estimate r)
unfolding get_safe_gas_limit
with_safe_limit-Judges lib t estimate (err e) h =
    (refl, inl (refused gas_limit estimate _ _ _ e h, (_, refl), refl, refl))
with_safe_limit-Judges lib t estimate (ok limit) h =
    let (a, b, c) = (get_safe_gas_limit_iff lib t estimate limit).0 h in
    (refl, inr (a, subst (λ x. x ≤ gas_limit) (sym c) b, refl, refl, sym c))

estimated-Judges :
    (lib : ChainLibrary) (t : TransactionManager lib) (r : Result ℕ × lib.World)
    → ((estimated lib t r).0.is_simulated ≡ true) × Judges lib t r.0 (estimated lib t r).0
unfolding estimated
estimated-Judges lib t (err e, w) = (refl, (refl, refl, refl))
estimated-Judges lib t (ok estimate, w) =
    with_safe_limit-Judges lib t estimate (get_safe_gas_limit lib t estimate) refl

simulate_transaction-IsSimulation :
    (lib : ChainLibrary) (calls : ChainCalls lib) (t : TransactionManager lib) (to : lib.Address)
    (opts : Option (TransactOpts lib)) (bytes : List ℕ) (w : lib.World)
    → IsSimulation lib calls t to opts bytes w (simulate_transaction lib calls t to opts bytes w).0
unfolding simulate_transaction
simulate_transaction-IsSimulation lib calls t to none bytes w = (refl, refl, refl, refl)
simulate_transaction-IsSimulation lib calls t to (some opts) bytes w =
    estimated-Judges lib t (calls.estimate (call_of lib to opts bytes) w)

-- The gas limit that a submission takes from a transaction created from raw data is that of its
-- simulation: 0 without options, and 0 with an error where the client fails to estimate the call or the
-- estimate or the wrapped sum of the scaled estimate and the buffer does not fit in a block. Otherwise it
-- is that sum, and the estimate that is reported is the client's.
pub submission-IsSimulation :
    (lib : ChainLibrary) (calls : ChainCalls lib) (t : TransactionManager lib) (to : lib.Address)
    (bytes : List ℕ) (opts : Option (TransactOpts lib)) (w : lib.World)
    → (s : TransactionSubmission lib) × (create_tx_submission_from_info lib
          (ok (create_transaction_info_raw lib calls t to bytes opts w).0)
        ≡ ok s)
      × (s.submission_gas_limit ≡ s.tx_info.simulation_result.safe_gas_limit)
      × IsSimulation lib calls t to opts bytes w s.tx_info.simulation_result
unfolding create_tx_submission_from_info create_transaction_info_raw
submission-IsSimulation lib calls t to bytes opts w =
    (_, refl, refl, simulate_transaction-IsSimulation lib calls t to opts bytes w)
