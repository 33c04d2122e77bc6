-- ===== src/Services/BeaconNode.antt =====
-- The forwarding methods of bn-manager.go: each sends one call of beacon.IBeaconClient
-- (beacon/beacon-client.go) through the runner.
pub mod Calls
use node_manager_core.Base.{ℕ, String, Bool, Option, List}
use node_manager_core.Services.{Outcome, Manager, Run, run_function0, run_function1, run_function2}

-- The data types of the interface, which the manager passes on without looking into them.
pub record BeaconTypes : Type 1 where
  pub Context : Type 0
  pub Address : Type 0
  pub SyncStatus : Type 0
  pub Eth2Config : Type 0
  pub Eth2DepositContract : Type 0
  pub AttestationInfo : Type 0
  pub BeaconBlock : Type 0
  pub BeaconBlockHeader : Type 0
  pub BeaconHead : Type 0
  pub ValidatorStatusOptions : Type 0
  pub ValidatorStatus : Type 0
  pub ValidatorStatuses : Type 0
  pub ValidatorPubkey : Type 0
  pub SyncDuties : Type 0
  pub ProposerDuties : Type 0
  pub ValidatorSignature : Type 0
  pub Eth1Data : Type 0
  pub Committees : Type 0

module _ (t : BeaconTypes) (W : Type 0) where
  pub record BeaconClient : Type 0 where
    pub get_sync_status : t.Context → W → Outcome (t.SyncStatus) × W
    pub get_eth2_config : t.Context → W → Outcome (t.Eth2Config) × W
    pub get_eth2_deposit_contract : t.Context → W → Outcome (t.Eth2DepositContract) × W
    pub get_attestations : t.Context → String → W → Outcome (List t.AttestationInfo × Bool) × W
    pub get_beacon_block : t.Context → String → W → Outcome (t.BeaconBlock × Bool) × W
    pub get_beacon_block_header : t.Context → String → W → Outcome (t.BeaconBlockHeader × Bool) × W
    pub get_beacon_head : t.Context → W → Outcome (t.BeaconHead) × W
    pub get_validator_status_by_index :
        t.Context → String → Option t.ValidatorStatusOptions → W → Outcome (t.ValidatorStatus) × W
    pub get_validator_status :
        t.Context
        → t.ValidatorPubkey
        → Option t.ValidatorStatusOptions
        → W
        → Outcome (t.ValidatorStatus) × W
    pub get_validator_statuses :
        t.Context
        → List t.ValidatorPubkey
        → Option t.ValidatorStatusOptions
        → W
        → Outcome (t.ValidatorStatuses) × W
    pub get_validator_index : t.Context → t.ValidatorPubkey → W → Outcome (String) × W
    pub get_validator_sync_duties : t.Context → List String → ℕ → W → Outcome (t.SyncDuties) × W
    pub get_validator_proposer_duties :
        t.Context → List String → ℕ → W → Outcome (t.ProposerDuties) × W
    pub get_domain_data : t.Context → List ℕ → ℕ → Bool → W → Outcome (List ℕ) × W
    pub exit_validator : t.Context → String → ℕ → t.ValidatorSignature → W → Outcome (Unit {0}) × W
    pub close : t.Context → W → Outcome (Unit {0}) × W
    pub get_eth1_data_for_eth2_block : t.Context → String → W → Outcome (t.Eth1Data × Bool) × W
    pub get_committees_for_epoch : t.Context → Option ℕ → W → Outcome (t.Committees) × W
    pub change_withdrawal_credentials :
        t.Context
        → String
        → t.ValidatorPubkey
        → t.Address
        → t.ValidatorSignature
        → W
        → Outcome (Unit {0}) × W

  unfoldable pub get_sync_status :
      t.Context → Manager BeaconClient → W → Run BeaconClient W (t.SyncStatus)
  unfolding run_function1
  get_sync_status ctx m w = run_function1 (λ client. client.get_sync_status ctx) m w

  unfoldable pub get_eth2_config :
      t.Context → Manager BeaconClient → W → Run BeaconClient W (t.Eth2Config)
  unfolding run_function1
  get_eth2_config ctx m w = run_function1 (λ client. client.get_eth2_config ctx) m w

  unfoldable pub get_eth2_deposit_contract :
      t.Context → Manager BeaconClient → W → Run BeaconClient W (t.Eth2DepositContract)
  unfolding run_function1
  get_eth2_deposit_contract ctx m w =
      run_function1 (λ client. client.get_eth2_deposit_contract ctx) m w

  unfoldable pub get_attestations :
      t.Context
      → String
      → Manager BeaconClient
      → W
      → Run BeaconClient W (List t.AttestationInfo × Bool)
  unfolding run_function2
  get_attestations ctx block_id m w =
      run_function2 (λ client. client.get_attestations ctx block_id) m w

  unfoldable pub get_beacon_block :
      t.Context → String → Manager BeaconClient → W → Run BeaconClient W (t.BeaconBlock × Bool)
  unfolding run_function2
  get_beacon_block ctx block_id m w =
      run_function2 (λ client. client.get_beacon_block ctx block_id) m w

  unfoldable pub get_beacon_block_header :
      t.Context
      → String
      → Manager BeaconClient
      → W
      → Run BeaconClient W (t.BeaconBlockHeader × Bool)
  unfolding run_function2
  get_beacon_block_header ctx block_id m w =
      run_function2 (λ client. client.get_beacon_block_header ctx block_id) m w

  unfoldable pub get_beacon_head :
      t.Context → Manager BeaconClient → W → Run BeaconClient W (t.BeaconHead)
  unfolding run_function1
  get_beacon_head ctx m w = run_function1 (λ client. client.get_beacon_head ctx) m w

  unfoldable pub get_validator_status_by_index :
      t.Context
      → String
      → Option t.ValidatorStatusOptions
      → Manager BeaconClient
      → W
      → Run BeaconClient W (t.ValidatorStatus)
  unfolding run_function1
  get_validator_status_by_index ctx index opts m w =
      run_function1 (λ client. client.get_validator_status_by_index ctx index opts) m w

  unfoldable pub get_validator_status :
      t.Context
      → t.ValidatorPubkey
      → Option t.ValidatorStatusOptions
      → Manager BeaconClient
      → W
      → Run BeaconClient W (t.ValidatorStatus)
  unfolding run_function1
  get_validator_status ctx pubkey opts m w =
      run_function1 (λ client. client.get_validator_status ctx pubkey opts) m w

  unfoldable pub get_validator_statuses :
      t.Context
      → List t.ValidatorPubkey
      → Option t.ValidatorStatusOptions
      → Manager BeaconClient
      → W
      → Run BeaconClient W (t.ValidatorStatuses)
  unfolding run_function1
  get_validator_statuses ctx pubkeys opts m w =
      run_function1 (λ client. client.get_validator_statuses ctx pubkeys opts) m w

  unfoldable pub get_validator_index :
      t.Context → t.ValidatorPubkey → Manager BeaconClient → W → Run BeaconClient W (String)
  unfolding run_function1
  get_validator_index ctx pubkey m w =
      run_function1 (λ client. client.get_validator_index ctx pubkey) m w

  unfoldable pub get_validator_sync_duties :
      t.Context → List String → ℕ → Manager BeaconClient → W → Run BeaconClient W (t.SyncDuties)
  unfolding run_function1
  get_validator_sync_duties ctx indices epoch m w =
      run_function1 (λ client. client.get_validator_sync_duties ctx indices epoch) m w

  unfoldable pub get_validator_proposer_duties :
      t.Context → List String → ℕ → Manager BeaconClient → W → Run BeaconClient W (t.ProposerDuties)
  unfolding run_function1
  get_validator_proposer_duties ctx indices epoch m w =
      run_function1 (λ client. client.get_validator_proposer_duties ctx indices epoch) m w

  unfoldable pub get_domain_data :
      t.Context → List ℕ → ℕ → Bool → Manager BeaconClient → W → Run BeaconClient W (List ℕ)
  unfolding run_function1
  get_domain_data ctx domain_type epoch use_genesis_fork m w =
      run_function1 (λ client. client.get_domain_data ctx domain_type epoch use_genesis_fork) m w

  unfoldable pub exit_validator :
      t.Context
      → String
      → ℕ
      → t.ValidatorSignature
      → Manager BeaconClient
      → W
      → Run BeaconClient W (Unit {0})
  unfolding run_function0
  exit_validator ctx validator_index epoch signature m w =
      run_function0 (λ client. client.exit_validator ctx validator_index epoch signature) m w

  unfoldable pub close : t.Context → Manager BeaconClient → W → Run BeaconClient W (Unit {0})
  unfolding run_function0
  close ctx m w = run_function0 (λ client. client.close ctx) m w

  unfoldable pub get_eth1_data_for_eth2_block :
      t.Context → String → Manager BeaconClient → W → Run BeaconClient W (t.Eth1Data × Bool)
  unfolding run_function2
  get_eth1_data_for_eth2_block ctx block_id m w =
      run_function2 (λ client. client.get_eth1_data_for_eth2_block ctx block_id) m w

  unfoldable pub get_committees_for_epoch :
      t.Context → Option ℕ → Manager BeaconClient → W → Run BeaconClient W (t.Committees)
  unfolding run_function1
  get_committees_for_epoch ctx epoch m w =
      run_function1 (λ client. client.get_committees_for_epoch ctx epoch) m w

  unfoldable pub change_withdrawal_credentials :
      t.Context
      → String
      → t.ValidatorPubkey
      → t.Address
      → t.ValidatorSignature
      → Manager BeaconClient
      → W
      → Run BeaconClient W (Unit {0})
  unfolding run_function0
  change_withdrawal_credentials ctx validator_index from_bls_pubkey to_execution_address signature m
        w =
      run_function0
        (λ client.
          client.change_withdrawal_credentials ctx validator_index from_bls_pubkey
            to_execution_address signature)
        m w

  -- A call of one of the forwarding methods.
  pub data BeaconCall : Type 0 where
    get_sync_status_call : t.Context → BeaconCall
    get_eth2_config_call : t.Context → BeaconCall
    get_eth2_deposit_contract_call : t.Context → BeaconCall
    get_attestations_call : t.Context → String → BeaconCall
    get_beacon_block_call : t.Context → String → BeaconCall
    get_beacon_block_header_call : t.Context → String → BeaconCall
    get_beacon_head_call : t.Context → BeaconCall
    get_validator_status_by_index_call :
        t.Context → String → Option t.ValidatorStatusOptions → BeaconCall
    get_validator_status_call :
        t.Context → t.ValidatorPubkey → Option t.ValidatorStatusOptions → BeaconCall
    get_validator_statuses_call :
        t.Context → List t.ValidatorPubkey → Option t.ValidatorStatusOptions → BeaconCall
    get_validator_index_call : t.Context → t.ValidatorPubkey → BeaconCall
    get_validator_sync_duties_call : t.Context → List String → ℕ → BeaconCall
    get_validator_proposer_duties_call : t.Context → List String → ℕ → BeaconCall
    get_domain_data_call : t.Context → List ℕ → ℕ → Bool → BeaconCall
    exit_validator_call : t.Context → String → ℕ → t.ValidatorSignature → BeaconCall
    close_call : t.Context → BeaconCall
    get_eth1_data_for_eth2_block_call : t.Context → String → BeaconCall
    get_committees_for_epoch_call : t.Context → Option ℕ → BeaconCall
    change_withdrawal_credentials_call :
        t.Context → String → t.ValidatorPubkey → t.Address → t.ValidatorSignature → BeaconCall
