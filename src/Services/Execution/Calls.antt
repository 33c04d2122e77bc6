-- ===== src/Services/Execution/Calls.antt =====
-- Any sequence of calls of the forwarding methods of ec-manager.go.
use node_manager_core.Base.{◌≡◌, refl, ap, List, [], ◌∷◌}
use node_manager_core.Services.{Manager, Run, run_function0, run_function2}
use node_manager_core.Services.Failover.{IsConsistent, run_function1-IsConsistent}
use node_manager_core.Services.Sequences.{
  Lessens, Lessens-refl, Lessens-trans, run_function1-Lessens, exhausted_step, IsExhausted,
}
use node_manager_core.Services.Execution.{
  ExecutionTypes, ExecutionClient, ExecutionCall, code_at, call_contract, header_by_hash,
  header_by_number, pending_code_at, pending_nonce_at, suggest_gas_price, suggest_gas_tip_cap,
  estimate_gas, send_transaction, filter_logs, subscribe_filter_logs, transaction_receipt,
  block_number, balance_at, transaction_by_hash, nonce_at, sync_progress, chain_id, code_at_call,
  call_contract_call, header_by_hash_call, header_by_number_call, pending_code_at_call,
  pending_nonce_at_call, suggest_gas_price_call, suggest_gas_tip_cap_call, estimate_gas_call,
  send_transaction_call, filter_logs_call, subscribe_filter_logs_call, transaction_receipt_call,
  block_number_call, balance_at_call, transaction_by_hash_call, nonce_at_call, sync_progress_call,
  chain_id_call,
}

module _ (t : ExecutionTypes) (W : Type 0) where
  abbrev kept : {C R : Type 0} → Run C W R → Manager C × W
  kept (o, m, w) = (m, w)

  -- What a call leaves of the manager and of the world outside.
  unfoldable pub perform :
      ExecutionCall t W → Manager (ExecutionClient t W) → W → Manager (ExecutionClient t W) × W
  perform (code_at_call ctx contract number) m w = kept (code_at t W ctx contract number m w)
  perform (call_contract_call ctx msg number) m w = kept (call_contract t W ctx msg number m w)
  perform (header_by_hash_call ctx hash) m w = kept (header_by_hash t W ctx hash m w)
  perform (header_by_number_call ctx number) m w = kept (header_by_number t W ctx number m w)
  perform (pending_code_at_call ctx account) m w = kept (pending_code_at t W ctx account m w)
  perform (pending_nonce_at_call ctx account) m w = kept (pending_nonce_at t W ctx account m w)
  perform (suggest_gas_price_call ctx) m w = kept (suggest_gas_price t W ctx m w)
  perform (suggest_gas_tip_cap_call ctx) m w = kept (suggest_gas_tip_cap t W ctx m w)
  perform (estimate_gas_call ctx msg) m w = kept (estimate_gas t W ctx msg m w)
  perform (send_transaction_call ctx tx) m w = kept (send_transaction t W ctx tx m w)
  perform (filter_logs_call ctx query) m w = kept (filter_logs t W ctx query m w)
  perform (subscribe_filter_logs_call ctx query ch) m w =
      kept (subscribe_filter_logs t W ctx query ch m w)
  perform (transaction_receipt_call ctx tx_hash) m w =
      kept (transaction_receipt t W ctx tx_hash m w)
  perform (block_number_call ctx) m w = kept (block_number t W ctx m w)
  perform (balance_at_call ctx account number) m w = kept (balance_at t W ctx account number m w)
  perform (transaction_by_hash_call ctx hash) m w = kept (transaction_by_hash t W ctx hash m w)
  perform (nonce_at_call ctx account number) m w = kept (nonce_at t W ctx account number m w)
  perform (sync_progress_call ctx) m w = kept (sync_progress t W ctx m w)
  perform (chain_id_call ctx) m w = kept (chain_id t W ctx m w)

  unfoldable pub perform_all :
      List (ExecutionCall t W)
      → Manager (ExecutionClient t W)
      → W
      → Manager (ExecutionClient t W) × W
  perform_all [] m w = (m, w)
  perform_all (c ∷ cs) m w = let (m', w') = perform c m w in perform_all cs m' w'

  perform-Lessens :
      (c : ExecutionCall t W) (m : Manager (ExecutionClient t W)) (w : W)
      → Lessens m (perform c m w).0
  unfolding perform run_function0 run_function2 code_at call_contract header_by_hash
      header_by_number pending_code_at pending_nonce_at suggest_gas_price suggest_gas_tip_cap
      estimate_gas send_transaction filter_logs subscribe_filter_logs transaction_receipt
      block_number balance_at transaction_by_hash nonce_at sync_progress chain_id
  perform-Lessens (code_at_call ctx contract number) m w =
      run_function1-Lessens (λ client. client.code_at ctx contract number) m w
  perform-Lessens (call_contract_call ctx msg number) m w =
      run_function1-Lessens (λ client. client.call_contract ctx msg number) m w
  perform-Lessens (header_by_hash_call ctx hash) m w =
      run_function1-Lessens (λ client. client.header_by_hash ctx hash) m w
  perform-Lessens (header_by_number_call ctx number) m w =
      run_function1-Lessens (λ client. client.header_by_number ctx number) m w
  perform-Lessens (pending_code_at_call ctx account) m w =
      run_function1-Lessens (λ client. client.pending_code_at ctx account) m w
  perform-Lessens (pending_nonce_at_call ctx account) m w =
      run_function1-Lessens (λ client. client.pending_nonce_at ctx account) m w
  perform-Lessens (suggest_gas_price_call ctx) m w =
      run_function1-Lessens (λ client. client.suggest_gas_price ctx) m w
  perform-Lessens (suggest_gas_tip_cap_call ctx) m w =
      run_function1-Lessens (λ client. client.suggest_gas_tip_cap ctx) m w
  perform-Lessens (estimate_gas_call ctx msg) m w =
      run_function1-Lessens (λ client. client.estimate_gas ctx msg) m w
  perform-Lessens (send_transaction_call ctx tx) m w =
      run_function1-Lessens (λ client. client.send_transaction ctx tx) m w
  perform-Lessens (filter_logs_call ctx query) m w =
      run_function1-Lessens (λ client. client.filter_logs ctx query) m w
  perform-Lessens (subscribe_filter_logs_call ctx query ch) m w =
      run_function1-Lessens (λ client. client.subscribe_filter_logs ctx query ch) m w
  perform-Lessens (transaction_receipt_call ctx tx_hash) m w =
      run_function1-Lessens (λ client. client.transaction_receipt ctx tx_hash) m w
  perform-Lessens (block_number_call ctx) m w =
      run_function1-Lessens (λ client. client.block_number ctx) m w
  perform-Lessens (balance_at_call ctx account number) m w =
      run_function1-Lessens (λ client. client.balance_at ctx account number) m w
  perform-Lessens (transaction_by_hash_call ctx hash) m w =
      run_function1-Lessens (λ client. client.transaction_by_hash ctx hash) m w
  perform-Lessens (nonce_at_call ctx account number) m w =
      run_function1-Lessens (λ client. client.nonce_at ctx account number) m w
  perform-Lessens (sync_progress_call ctx) m w =
      run_function1-Lessens (λ client. client.sync_progress ctx) m w
  perform-Lessens (chain_id_call ctx) m w =
      run_function1-Lessens (λ client. client.chain_id ctx) m w

  perform-IsConsistent :
      (c : ExecutionCall t W) (m : Manager (ExecutionClient t W)) (w : W)
      → IsConsistent m
      → IsConsistent (perform c m w).0
  unfolding perform run_function0 run_function2 code_at call_contract header_by_hash
      header_by_number pending_code_at pending_nonce_at suggest_gas_price suggest_gas_tip_cap
      estimate_gas send_transaction filter_logs subscribe_filter_logs transaction_receipt
      block_number balance_at transaction_by_hash nonce_at sync_progress chain_id
  perform-IsConsistent (code_at_call ctx contract number) m w c =
      run_function1-IsConsistent (λ client. client.code_at ctx contract number) m w c
  perform-IsConsistent (call_contract_call ctx msg number) m w c =
      run_function1-IsConsistent (λ client. client.call_contract ctx msg number) m w c
  perform-IsConsistent (header_by_hash_call ctx hash) m w c =
      run_function1-IsConsistent (λ client. client.header_by_hash ctx hash) m w c
  perform-IsConsistent (header_by_number_call ctx number) m w c =
      run_function1-IsConsistent (λ client. client.header_by_number ctx number) m w c
  perform-IsConsistent (pending_code_at_call ctx account) m w c =
      run_function1-IsConsistent (λ client. client.pending_code_at ctx account) m w c
  perform-IsConsistent (pending_nonce_at_call ctx account) m w c =
      run_function1-IsConsistent (λ client. client.pending_nonce_at ctx account) m w c
  perform-IsConsistent (suggest_gas_price_call ctx) m w c =
      run_function1-IsConsistent (λ client. client.suggest_gas_price ctx) m w c
  perform-IsConsistent (suggest_gas_tip_cap_call ctx) m w c =
      run_function1-IsConsistent (λ client. client.suggest_gas_tip_cap ctx) m w c
  perform-IsConsistent (estimate_gas_call ctx msg) m w c =
      run_function1-IsConsistent (λ client. client.estimate_gas ctx msg) m w c
  perform-IsConsistent (send_transaction_call ctx tx) m w c =
      run_function1-IsConsistent (λ client. client.send_transaction ctx tx) m w c
  perform-IsConsistent (filter_logs_call ctx query) m w c =
      run_function1-IsConsistent (λ client. client.filter_logs ctx query) m w c
  perform-IsConsistent (subscribe_filter_logs_call ctx query ch) m w c =
      run_function1-IsConsistent (λ client. client.subscribe_filter_logs ctx query ch) m w c
  perform-IsConsistent (transaction_receipt_call ctx tx_hash) m w c =
      run_function1-IsConsistent (λ client. client.transaction_receipt ctx tx_hash) m w c
  perform-IsConsistent (block_number_call ctx) m w c =
      run_function1-IsConsistent (λ client. client.block_number ctx) m w c
  perform-IsConsistent (balance_at_call ctx account number) m w c =
      run_function1-IsConsistent (λ client. client.balance_at ctx account number) m w c
  perform-IsConsistent (transaction_by_hash_call ctx hash) m w c =
      run_function1-IsConsistent (λ client. client.transaction_by_hash ctx hash) m w c
  perform-IsConsistent (nonce_at_call ctx account number) m w c =
      run_function1-IsConsistent (λ client. client.nonce_at ctx account number) m w c
  perform-IsConsistent (sync_progress_call ctx) m w c =
      run_function1-IsConsistent (λ client. client.sync_progress ctx) m w c
  perform-IsConsistent (chain_id_call ctx) m w c =
      run_function1-IsConsistent (λ client. client.chain_id ctx) m w c

  exhausted_call :
      (c : ExecutionCall t W) (m : Manager (ExecutionClient t W)) (w : W)
      → IsExhausted m
      → perform c m w ≡ (m, w)
  unfolding perform run_function0 run_function2 code_at call_contract header_by_hash
      header_by_number pending_code_at pending_nonce_at suggest_gas_price suggest_gas_tip_cap
      estimate_gas send_transaction filter_logs subscribe_filter_logs transaction_receipt
      block_number balance_at transaction_by_hash nonce_at sync_progress chain_id
  exhausted_call (code_at_call ctx contract number) m w h =
      ap kept (exhausted_step (λ client. client.code_at ctx contract number) m w h)
  exhausted_call (call_contract_call ctx msg number) m w h =
      ap kept (exhausted_step (λ client. client.call_contract ctx msg number) m w h)
  exhausted_call (header_by_hash_call ctx hash) m w h =
      ap kept (exhausted_step (λ client. client.header_by_hash ctx hash) m w h)
  exhausted_call (header_by_number_call ctx number) m w h =
      ap kept (exhausted_step (λ client. client.header_by_number ctx number) m w h)
  exhausted_call (pending_code_at_call ctx account) m w h =
      ap kept (exhausted_step (λ client. client.pending_code_at ctx account) m w h)
  exhausted_call (pending_nonce_at_call ctx account) m w h =
      ap kept (exhausted_step (λ client. client.pending_nonce_at ctx account) m w h)
  exhausted_call (suggest_gas_price_call ctx) m w h =
      ap kept (exhausted_step (λ client. client.suggest_gas_price ctx) m w h)
  exhausted_call (suggest_gas_tip_cap_call ctx) m w h =
      ap kept (exhausted_step (λ client. client.suggest_gas_tip_cap ctx) m w h)
  exhausted_call (estimate_gas_call ctx msg) m w h =
      ap kept (exhausted_step (λ client. client.estimate_gas ctx msg) m w h)
  exhausted_call (send_transaction_call ctx tx) m w h =
      ap kept (exhausted_step (λ client. client.send_transaction ctx tx) m w h)
  exhausted_call (filter_logs_call ctx query) m w h =
      ap kept (exhausted_step (λ client. client.filter_logs ctx query) m w h)
  exhausted_call (subscribe_filter_logs_call ctx query ch) m w h =
      ap kept (exhausted_step (λ client. client.subscribe_filter_logs ctx query ch) m w h)
  exhausted_call (transaction_receipt_call ctx tx_hash) m w h =
      ap kept (exhausted_step (λ client. client.transaction_receipt ctx tx_hash) m w h)
  exhausted_call (block_number_call ctx) m w h =
      ap kept (exhausted_step (λ client. client.block_number ctx) m w h)
  exhausted_call (balance_at_call ctx account number) m w h =
      ap kept (exhausted_step (λ client. client.balance_at ctx account number) m w h)
  exhausted_call (transaction_by_hash_call ctx hash) m w h =
      ap kept (exhausted_step (λ client. client.transaction_by_hash ctx hash) m w h)
  exhausted_call (nonce_at_call ctx account number) m w h =
      ap kept (exhausted_step (λ client. client.nonce_at ctx account number) m w h)
  exhausted_call (sync_progress_call ctx) m w h =
      ap kept (exhausted_step (λ client. client.sync_progress ctx) m w h)
  exhausted_call (chain_id_call ctx) m w h =
      ap kept (exhausted_step (λ client. client.chain_id ctx) m w h)

  idle_calls :
      (cs : List (ExecutionCall t W)) (m : Manager (ExecutionClient t W)) (w : W)
      → IsExhausted m
      → perform_all cs m w ≡ (m, w)
  unfolding perform_all
  idle_calls [] m w h = refl
  idle_calls (x ∷ cs) m w h = rw (exhausted_call x m w h, idle_calls cs m w h)

  -- Any sequence of calls of the execution client manager's forwarding methods, whatever the clients answer,
  -- changes nothing of the manager but its two flags, makes no client ready that was not, and keeps the
  -- flags consistent with the clients; with no client ready it changes nothing and reaches no client.
  pub execution_calls-Lessens :
      (cs : List (ExecutionCall t W)) (m : Manager (ExecutionClient t W)) (w : W)
      → IsConsistent m
      → Lessens m (perform_all cs m w).0
        × IsConsistent (perform_all cs m w).0
        × (IsExhausted m → perform_all cs m w ≡ (m, w))
  unfolding perform_all
  execution_calls-Lessens [] m w c = (Lessens-refl m, c, λ h. refl)
  execution_calls-Lessens (x ∷ cs) m w c =
      let (l, d, e) =
        execution_calls-Lessens cs (perform x m w).0 (perform x m w).1
          (perform-IsConsistent x m w c) in
      (
        Lessens-trans (perform-Lessens x m w) l,
        d,
        λ h. rw (exhausted_call x m w h, idle_calls cs m w h),
      )
