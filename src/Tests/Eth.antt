-- ===== src/Tests/Eth.antt =====
-- A small chain: its world is a clock, and a transaction is its nonce.
use node_manager_core.Base.{
  arith, Bool, List, map, ◌++◌, ◌==◌, ℕ, suc, ◌+◌, ◌-◌, ◌*◌, ◌/◌, ◌%◌, ◌<◌, ◌^◌, ◌≡◌, ◌≤◌, ◌↔◌,
  refl, true, false, Option, none, some, [], ◌∷◌, ltb, if◌then◌else◌, inr,
}
use node_manager_core.Utils.Hex.{codes, decode_string, has_prefix, trim_prefix}
use node_manager_core.Eth.Transactions.{
  normalize_revert_message, find_revert_message, hex_run, ChainLibrary, ok, gas_limit,
  TransactionSubmission, TransactOpts, found, not_found, ChainCalls, TransactionManager,
  get_safe_gas_limit, create_transaction_info_raw, create_tx_submission_from_info,
}
use node_manager_core.Eth.Gas.{get_safe_gas_limit_iff, submission-IsSimulation, IsSimulation}
use node_manager_core.Eth.Bundles.{done, batch_execute_transactions}
use node_manager_core.Eth.Bundles.Nonces.{IsBundle, batch_execute_transactions-send_all}
use node_manager_core.Eth.Waiting.{
  get_transaction_from_hash, Answers, get_transaction_from_hash_iff,
}
use node_manager_core.Base.Reorders.{Reorders, nothing, here}
use node_manager_core.Base.Reorders.{put}
use node_manager_core.Eth.Queries.{
  MulticallLibrary, planned, endless, plan, plan_from, Method, flex_batch_query,
}
use node_manager_core.Eth.Queries.Batches.{occurs, once}
use node_manager_core.Eth.Queries.Outcomes.{Adds, handle_each, flex_batch_query-handle_each}

abbrev is_even : ℕ → Bool
is_even j = j % 2 == 0

-- A multiplier is a number of halves.
abbrev toy_chain : ChainLibrary
toy_chain = record {
  World = ℕ;
  Float = ℕ;
  is_zero = λ m. if ltb m 1 then true else false;
  is_below_one = λ m. ltb m 2;
  scale_up = λ e m. (e * m + 1) / 2;
  Address = ℕ;
  Hash = ℕ;
  Signer = ℕ;
  Context = ℕ;
  Tx = Option ℕ;
  Abi = ℕ;
  Bound = ℕ;
  Arguments = ℕ;
}

-- The client finds a transaction at time 2, and estimates 21000.
abbrev toy_calls : ChainCalls toy_chain
toy_calls = record {
  estimate = λ m w. (ok 21000, w);
  pack = λ abi method arguments. ok [];
  raw_transact = λ to opts bytes w. (ok opts.nonce, w);
  latest_nonce = λ a w. (ok 5, w);
  wait_mined = λ tx w. (ok 1, w);
  lookup_by_hash = λ hash w. (if ltb w 2 then not_found else found (some hash), w);
  sleep = λ w. suc w;
}

abbrev toy_manager : TransactionManager toy_chain
toy_manager = record { buffer = 100; multiplier = 3 }

abbrev toy_opts : TransactOpts toy_chain
toy_opts = record {
  from = 1;
  nonce = none;
  signer = 0;
  value = none;
  gas_price = none;
  gas_fee_cap = some 20;
  gas_tip_cap = some 1;
  opts_gas_limit = 0;
  context = 0;
  no_send = false;
}

abbrev toy_submission : TransactionSubmission toy_chain
toy_submission = record {
  tx_info = record {
    data_bytes = [];
    to = 2;
    value = some 3;
    simulation_result = record {
      is_simulated = false;
      estimated_gas_limit = 0;
      safe_gas_limit = 0;
      simulation_error = none;
    };
  };
  submission_gas_limit = 21000;
}

two_submissions :
    (batch_execute_transactions toy_chain toy_calls
      (toy_submission ∷ toy_submission ∷ [])
      toy_opts
      0).0
    ≡ done (some 5 ∷ some 6 ∷ [])
unfolding batch_execute_transactions
two_submissions = refl

-- A buffer next to 2 ^ 64 wraps: the limit is below the estimate.
wrapped_buffer :
    get_safe_gas_limit toy_chain (record { buffer = 2 ^ 64 - 1; multiplier = 2 }) 21000 ≡ ok 20999
unfolding get_safe_gas_limit
wrapped_buffer = refl

get_safe_gas_limit_iff_example :
    (get_safe_gas_limit toy_chain toy_manager 21000 ≡ ok 31600)
    ↔ ((21000 ≤ gas_limit) × (31600 ≤ gas_limit) × ((31500 + 100) % 2 ^ 64 ≡ 31600))
get_safe_gas_limit_iff_example = get_safe_gas_limit_iff toy_chain toy_manager 21000 31600

-- A message of a revert is decoded, and one of an odd length is left as it is.
decoded_revert :
    (normalize_revert_message (codes "VM: Reverted 0x4e6f21 (gas)") ≡ codes "reverted: No!")
    × (normalize_revert_message (codes "Reverted 0x4e6") ≡ codes "Reverted 0x4e6")
unfolding normalize_revert_message find_revert_message hex_run has_prefix trim_prefix decode_string
decoded_revert = (refl, refl)

submission-IsSimulation_example :
    (s : TransactionSubmission toy_chain) × (create_tx_submission_from_info toy_chain
        (ok (create_transaction_info_raw toy_chain toy_calls toy_manager 2 [] (some toy_opts) 0).0)
      ≡ ok s)
    × (s.submission_gas_limit ≡ s.tx_info.simulation_result.safe_gas_limit)
    × IsSimulation toy_chain toy_calls toy_manager 2
        (some toy_opts)
        []
        0
        s.tx_info.simulation_result
submission-IsSimulation_example =
    submission-IsSimulation toy_chain toy_calls toy_manager 2 [] (some toy_opts) 0

batch_execute_transactions-send_all_example :
    IsBundle toy_chain toy_calls toy_opts 5 (toy_submission ∷ toy_submission ∷ []) 0 (
      batch_execute_transactions toy_chain toy_calls
        (toy_submission ∷ toy_submission ∷ [])
        toy_opts
        0)
batch_execute_transactions-send_all_example =
    batch_execute_transactions-send_all toy_chain toy_calls (toy_submission ∷ toy_submission ∷ [])
      toy_opts 5 0 0 (inr (refl, refl))

get_transaction_from_hash_iff_example :
    (get_transaction_from_hash toy_chain toy_calls 7 0 ≡ (ok (some 7), 2))
    ↔ ((n : ℕ) × (n < 30) × Answers toy_chain toy_calls 7 n 0 (found (some 7)) 2)
get_transaction_from_hash_iff_example =
    get_transaction_from_hash_iff toy_chain toy_calls 7 0 2 (some 7)

-- A multicall whose calls succeed for the even indices, and a handler that writes down what it gets.
abbrev toy_multicall : MulticallLibrary
toy_multicall = record {
  World = List (Bool × ℕ);
  Caller = List ℕ;
  CallOpts = ℕ;
  new_multi_caller = λ w. (ok [], w);
  flexible_call = λ strict opts c w. (ok (map is_even c), w);
}

abbrev toy_query : List ℕ → ℕ → Method toy_multicall (List ℕ)
toy_query c j w = (ok (c ++ (j ∷ [])), w)

abbrev toy_handle : Bool → ℕ → Method toy_multicall (Unit {0})
toy_handle r j w = (ok tt, (r, j) ∷ w)

toy_query-Adds : Adds toy_multicall toy_query
toy_query-Adds = record {
  outcome = is_even;
  pending = λ c. c;
  starts = λ w. ([], refl, refl);
  adds = λ c j w. (c ++ (j ∷ []), refl, refl);
  answers = λ c opts w. refl;
}

five_in_twos : plan 5 2 ≡ planned ((0, 2) ∷ (2, 4) ∷ (4, 5) ∷ [])
unfolding plan plan_from
five_in_twos = refl

-- With a batch size of 0 the loop of the source never ends.
no_batch_size : plan 5 0 ≡ endless
unfolding plan plan_from
no_batch_size = refl

same_order : (bs : List (ℕ × ℕ)) → Reorders bs bs
same_order [] = nothing
same_order (b ∷ bs) = put b bs bs (b ∷ bs) (same_order bs) (here bs)

flex_batch_query-handle_each_example :
    (bs : List (ℕ × ℕ)) × (js : List ℕ) × (plan 5 2 ≡ planned bs)
    × (flex_batch_query toy_multicall bs toy_query toy_handle 0 []
        ≡ handle_each toy_multicall toy_handle toy_query-Adds.outcome js [])
    × ((flex_batch_query toy_multicall bs toy_query toy_handle 0 []).0 ≡ ok tt)
    × ((j : ℕ) → occurs j js ≡ once (ltb j 5))
flex_batch_query-handle_each_example =
    flex_batch_query-handle_each toy_multicall toy_query toy_query-Adds toy_handle 0 5 2 (λ bs. bs)
      [] (omega arith) (λ r j w. refl) same_order
