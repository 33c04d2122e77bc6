-- ===== src/Services/Execution.antt =====
-- The forwarding methods of ec-manager.go: each sends one call of eth.IExecutionClient
-- (eth/execution-client.go) through the runner.
pub mod Calls
use node_manager_core.Base.{ℕ, Bool, Option, List}
use node_manager_core.Services.{Outcome, Manager, Run, run_function0, run_function1, run_function2}

-- The types that go-ethereum and the standard library declare.
pub record ExecutionTypes : Type 1 where
  pub Context : Type 0
  pub Address : Type 0
  pub Hash : Type 0
  pub BigInt : Type 0
  pub CallMsg : Type 0
  pub Header : Type 0
  pub Transaction : Type 0
  pub FilterQuery : Type 0
  pub LogEntry : Type 0
  pub LogChannel : Type 0
  pub Subscription : Type 0
  pub Receipt : Type 0
  pub SyncProgress : Type 0

module _ (t : ExecutionTypes) (W : Type 0) where
  pub record ExecutionClient : Type 0 where
    pub code_at : t.Context → t.Address → Option t.BigInt → W → Outcome (List ℕ) × W
    pub call_contract : t.Context → t.CallMsg → Option t.BigInt → W → Outcome (List ℕ) × W
    pub header_by_hash : t.Context → t.Hash → W → Outcome (t.Header) × W
    pub header_by_number : t.Context → Option t.BigInt → W → Outcome (t.Header) × W
    pub pending_code_at : t.Context → t.Address → W → Outcome (List ℕ) × W
    pub pending_nonce_at : t.Context → t.Address → W → Outcome (ℕ) × W
    pub suggest_gas_price : t.Context → W → Outcome (t.BigInt) × W
    pub suggest_gas_tip_cap : t.Context → W → Outcome (t.BigInt) × W
    pub estimate_gas : t.Context → t.CallMsg → W → Outcome (ℕ) × W
    pub send_transaction : t.Context → t.Transaction → W → Outcome (Unit {0}) × W
    pub filter_logs : t.Context → t.FilterQuery → W → Outcome (List t.LogEntry) × W
    pub subscribe_filter_logs :
        t.Context → t.FilterQuery → t.LogChannel → W → Outcome (t.Subscription) × W
    pub transaction_receipt : t.Context → t.Hash → W → Outcome (t.Receipt) × W
    pub block_number : t.Context → W → Outcome (ℕ) × W
    pub balance_at : t.Context → t.Address → Option t.BigInt → W → Outcome (t.BigInt) × W
    pub transaction_by_hash : t.Context → t.Hash → W → Outcome (t.Transaction × Bool) × W
    pub nonce_at : t.Context → t.Address → Option t.BigInt → W → Outcome (ℕ) × W
    pub sync_progress : t.Context → W → Outcome (Option t.SyncProgress) × W
    pub chain_id : t.Context → W → Outcome (t.BigInt) × W

  unfoldable pub code_at :
      t.Context
      → t.Address
      → Option t.BigInt
      → Manager ExecutionClient
      → W
      → Run ExecutionClient W (List ℕ)
  unfolding run_function1
  code_at ctx contract number m w = run_function1 (λ client. client.code_at ctx contract number) m w

  unfoldable pub call_contract :
      t.Context
      → t.CallMsg
      → Option t.BigInt
      → Manager ExecutionClient
      → W
      → Run ExecutionClient W (List ℕ)
  unfolding run_function1
  call_contract ctx msg number m w =
      run_function1 (λ client. client.call_contract ctx msg number) m w

  unfoldable pub header_by_hash :
      t.Context → t.Hash → Manager ExecutionClient → W → Run ExecutionClient W (t.Header)
  unfolding run_function1
  header_by_hash ctx hash m w = run_function1 (λ client. client.header_by_hash ctx hash) m w

  unfoldable pub header_by_number :
      t.Context → Option t.BigInt → Manager ExecutionClient → W → Run ExecutionClient W (t.Header)
  unfolding run_function1
  header_by_number ctx number m w = run_function1 (λ client. client.header_by_number ctx number) m w

  unfoldable pub pending_code_at :
      t.Context → t.Address → Manager ExecutionClient → W → Run ExecutionClient W (List ℕ)
  unfolding run_function1
  pending_code_at ctx account m w = run_function1 (λ client. client.pending_code_at ctx account) m w

  unfoldable pub pending_nonce_at :
      t.Context → t.Address → Manager ExecutionClient → W → Run ExecutionClient W (ℕ)
  unfolding run_function1
  pending_nonce_at ctx account m w =
      run_function1 (λ client. client.pending_nonce_at ctx account) m w

  unfoldable pub suggest_gas_price :
      t.Context → Manager ExecutionClient → W → Run ExecutionClient W (t.BigInt)
  unfolding run_function1
  suggest_gas_price ctx m w = run_function1 (λ client. client.suggest_gas_price ctx) m w

  unfoldable pub suggest_gas_tip_cap :
      t.Context → Manager ExecutionClient → W → Run ExecutionClient W (t.BigInt)
  unfolding run_function1
  suggest_gas_tip_cap ctx m w = run_function1 (λ client. client.suggest_gas_tip_cap ctx) m w

  unfoldable pub estimate_gas :
      t.Context → t.CallMsg → Manager ExecutionClient → W → Run ExecutionClient W (ℕ)
  unfolding run_function1
  estimate_gas ctx msg m w = run_function1 (λ client. client.estimate_gas ctx msg) m w

  unfoldable pub send_transaction :
      t.Context → t.Transaction → Manager ExecutionClient → W → Run ExecutionClient W (Unit {0})
  unfolding run_function0
  send_transaction ctx tx m w = run_function0 (λ client. client.send_transaction ctx tx) m w

  unfoldable pub filter_logs :
      t.Context
      → t.FilterQuery
      → Manager ExecutionClient
      → W
      → Run ExecutionClient W (List t.LogEntry)
  unfolding run_function1
  filter_logs ctx query m w = run_function1 (λ client. client.filter_logs ctx query) m w

  unfoldable pub subscribe_filter_logs :
      t.Context
      → t.FilterQuery
      → t.LogChannel
      → Manager ExecutionClient
      → W
      → Run ExecutionClient W (t.Subscription)
  unfolding run_function1
  subscribe_filter_logs ctx query ch m w =
      run_function1 (λ client. client.subscribe_filter_logs ctx query ch) m w

  unfoldable pub transaction_receipt :
      t.Context → t.Hash → Manager ExecutionClient → W → Run ExecutionClient W (t.Receipt)
  unfolding run_function1
  transaction_receipt ctx tx_hash m w =
      run_function1 (λ client. client.transaction_receipt ctx tx_hash) m w

  unfoldable pub block_number : t.Context → Manager ExecutionClient → W → Run ExecutionClient W (ℕ)
  unfolding run_function1
  block_number ctx m w = run_function1 (λ client. client.block_number ctx) m w

  unfoldable pub balance_at :
      t.Context
      → t.Address
      → Option t.BigInt
      → Manager ExecutionClient
      → W
      → Run ExecutionClient W (t.BigInt)
  unfolding run_function1
  balance_at ctx account number m w =
      run_function1 (λ client. client.balance_at ctx account number) m w

  unfoldable pub transaction_by_hash :
      t.Context
      → t.Hash
      → Manager ExecutionClient
      → W
      → Run ExecutionClient W (t.Transaction × Bool)
  unfolding run_function2
  transaction_by_hash ctx hash m w =
      run_function2 (λ client. client.transaction_by_hash ctx hash) m w

  unfoldable pub nonce_at :
      t.Context
      → t.Address
      → Option t.BigInt
      → Manager ExecutionClient
      → W
      → Run ExecutionClient W (ℕ)
  unfolding run_function1
  nonce_at ctx account number m w = run_function1 (λ client. client.nonce_at ctx account number) m w

  unfoldable pub sync_progress :
      t.Context → Manager ExecutionClient → W → Run ExecutionClient W (Option t.SyncProgress)
  unfolding run_function1
  sync_progress ctx m w = run_function1 (λ client. client.sync_progress ctx) m w

  unfoldable pub chain_id :
      t.Context → Manager ExecutionClient → W → Run ExecutionClient W (t.BigInt)
  unfolding run_function1
  chain_id ctx m w = run_function1 (λ client. client.chain_id ctx) m w

  -- A call of one of the forwarding methods.
  pub data ExecutionCall : Type 0 where
    code_at_call : t.Context → t.Address → Option t.BigInt → ExecutionCall
    call_contract_call : t.Context → t.CallMsg → Option t.BigInt → ExecutionCall
    header_by_hash_call : t.Context → t.Hash → ExecutionCall
    header_by_number_call : t.Context → Option t.BigInt → ExecutionCall
    pending_code_at_call : t.Context → t.Address → ExecutionCall
    pending_nonce_at_call : t.Context → t.Address → ExecutionCall
    suggest_gas_price_call : t.Context → ExecutionCall
    suggest_gas_tip_cap_call : t.Context → ExecutionCall
    estimate_gas_call : t.Context → t.CallMsg → ExecutionCall
    send_transaction_call : t.Context → t.Transaction → ExecutionCall
    filter_logs_call : t.Context → t.FilterQuery → ExecutionCall
    subscribe_filter_logs_call : t.Context → t.FilterQuery → t.LogChannel → ExecutionCall
    transaction_receipt_call : t.Context → t.Hash → ExecutionCall
    block_number_call : t.Context → ExecutionCall
    balance_at_call : t.Context → t.Address → Option t.BigInt → ExecutionCall
    transaction_by_hash_call : t.Context → t.Hash → ExecutionCall
    nonce_at_call : t.Context → t.Address → Option t.BigInt → ExecutionCall
    sync_progress_call : t.Context → ExecutionCall
    chain_id_call : t.Context → ExecutionCall
