-- ===== src/Tests/Calls.antt =====
-- The forwarding methods of the client managers at concrete inputs: a client that disconnects at every
-- call. The world counts the calls that reach a client.
use node_manager_core.Base.{ℕ, suc, ◌≡◌, [], ◌∷◌, refl}
use node_manager_core.Services.{Outcome, err, errno, Manager, new_manager_with_fallback}
use node_manager_core.Services.Failover.{IsConsistent, new_manager_with_fallback-IsConsistent}
use node_manager_core.Services.Sequences.{Lessens, IsExhausted}
use node_manager_core.Services.Execution.{
  ExecutionTypes, ExecutionClient, block_number_call, send_transaction_call, chain_id_call,
}
use node_manager_core.Services.Execution.Calls.{perform_all, execution_calls-Lessens}
use node_manager_core.Services.BeaconNode.{
  BeaconTypes, BeaconClient, get_beacon_head_call, close_call,
}
use node_manager_core.Services.BeaconNode.Calls.{
  perform_all as perform_beacon, beacon_node_calls-Lessens,
}

abbrev lost : {A : Type 0} → ℕ → Outcome A × ℕ
lost w = (err (errno 111), suc w)

abbrev execution_types : ExecutionTypes
execution_types = record {
  Context = Unit;
  Address = Unit;
  Hash = Unit;
  BigInt = Unit;
  CallMsg = Unit;
  Header = Unit;
  Transaction = Unit;
  FilterQuery = Unit;
  LogEntry = Unit;
  LogChannel = Unit;
  Subscription = Unit;
  Receipt = Unit;
  SyncProgress = Unit;
}

abbrev execution_client : ExecutionClient execution_types ℕ
execution_client = record {
  code_at = λ ctx contract number w. lost w;
  call_contract = λ ctx msg number w. lost w;
  header_by_hash = λ ctx hash w. lost w;
  header_by_number = λ ctx number w. lost w;
  pending_code_at = λ ctx account w. lost w;
  pending_nonce_at = λ ctx account w. lost w;
  suggest_gas_price = λ ctx w. lost w;
  suggest_gas_tip_cap = λ ctx w. lost w;
  estimate_gas = λ ctx msg w. lost w;
  send_transaction = λ ctx tx w. lost w;
  filter_logs = λ ctx query w. lost w;
  subscribe_filter_logs = λ ctx query ch w. lost w;
  transaction_receipt = λ ctx tx_hash w. lost w;
  block_number = λ ctx w. lost w;
  balance_at = λ ctx account number w. lost w;
  transaction_by_hash = λ ctx hash w. lost w;
  nonce_at = λ ctx account number w. lost w;
  sync_progress = λ ctx w. lost w;
  chain_id = λ ctx w. lost w;
}

abbrev execution_manager : Manager (ExecutionClient execution_types ℕ)
execution_manager = new_manager_with_fallback execution_client execution_client 1 "Client"

execution_calls-Lessens_example :
    Lessens execution_manager
      (perform_all execution_types ℕ
        (block_number_call tt ∷ send_transaction_call tt tt ∷ chain_id_call tt ∷ [])
        execution_manager
        0).0
    × IsConsistent
        (perform_all execution_types ℕ
          (block_number_call tt ∷ send_transaction_call tt tt ∷ chain_id_call tt ∷ [])
          execution_manager
          0).0
    × (IsExhausted execution_manager
        → perform_all execution_types ℕ
            (block_number_call tt ∷ send_transaction_call tt tt ∷ chain_id_call tt ∷ [])
            execution_manager
            0
          ≡ (execution_manager, 0))
execution_calls-Lessens_example =
    execution_calls-Lessens execution_types ℕ
      (block_number_call tt ∷ send_transaction_call tt tt ∷ chain_id_call tt ∷ []) execution_manager
      0 (new_manager_with_fallback-IsConsistent execution_client execution_client 1 "Client")

abbrev beacon_types : BeaconTypes
beacon_types = record {
  Context = Unit;
  Address = Unit;
  SyncStatus = Unit;
  Eth2Config = Unit;
  Eth2DepositContract = Unit;
  AttestationInfo = Unit;
  BeaconBlock = Unit;
  BeaconBlockHeader = Unit;
  BeaconHead = Unit;
  ValidatorStatusOptions = Unit;
  ValidatorStatus = Unit;
  ValidatorStatuses = Unit;
  ValidatorPubkey = Unit;
  SyncDuties = Unit;
  ProposerDuties = Unit;
  ValidatorSignature = Unit;
  Eth1Data = Unit;
  Committees = Unit;
}

abbrev beacon_client : BeaconClient beacon_types ℕ
beacon_client = record {
  get_sync_status = λ ctx w. lost w;
  get_eth2_config = λ ctx w. lost w;
  get_eth2_deposit_contract = λ ctx w. lost w;
  get_attestations = λ ctx block_id w. lost w;
  get_beacon_block = λ ctx block_id w. lost w;
  get_beacon_block_header = λ ctx block_id w. lost w;
  get_beacon_head = λ ctx w. lost w;
  get_validator_status_by_index = λ ctx index opts w. lost w;
  get_validator_status = λ ctx pubkey opts w. lost w;
  get_validator_statuses = λ ctx pubkeys opts w. lost w;
  get_validator_index = λ ctx pubkey w. lost w;
  get_validator_sync_duties = λ ctx indices epoch w. lost w;
  get_validator_proposer_duties = λ ctx indices epoch w. lost w;
  get_domain_data = λ ctx domain_type epoch use_genesis_fork w. lost w;
  exit_validator = λ ctx validator_index epoch signature w. lost w;
  close = λ ctx w. lost w;
  get_eth1_data_for_eth2_block = λ ctx block_id w. lost w;
  get_committees_for_epoch = λ ctx epoch w. lost w;
  change_withdrawal_credentials =
      λ ctx validator_index from_bls_pubkey to_execution_address signature w. lost w;
}

abbrev beacon_manager : Manager (BeaconClient beacon_types ℕ)
beacon_manager = new_manager_with_fallback beacon_client beacon_client 1 "Client"

beacon_node_calls-Lessens_example :
    Lessens beacon_manager
      (perform_beacon beacon_types ℕ
        (get_beacon_head_call tt ∷ close_call tt ∷ [])
        beacon_manager
        0).0
    × IsConsistent
        (perform_beacon beacon_types ℕ
          (get_beacon_head_call tt ∷ close_call tt ∷ [])
          beacon_manager
          0).0
    × (IsExhausted beacon_manager
        → perform_beacon beacon_types ℕ
            (get_beacon_head_call tt ∷ close_call tt ∷ [])
            beacon_manager
            0
          ≡ (beacon_manager, 0))
beacon_node_calls-Lessens_example =
    beacon_node_calls-Lessens beacon_types ℕ (get_beacon_head_call tt ∷ close_call tt ∷ [])
      beacon_manager 0
      (new_manager_with_fallback-IsConsistent beacon_client beacon_client 1 "Client")

only_two_calls :
    (perform_all execution_types ℕ
      (block_number_call tt ∷ send_transaction_call tt tt ∷ chain_id_call tt ∷ [])
      execution_manager
      0).1
    ≡ 2
unfolding perform_all node_manager_core.Services.Execution.Calls.perform
    node_manager_core.Services.Execution.chain_id
    node_manager_core.Services.Execution.send_transaction
    node_manager_core.Services.Execution.block_number new_manager_with_fallback
only_two_calls = refl
