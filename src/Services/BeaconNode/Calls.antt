-- ===== src/Services/BeaconNode/Calls.antt =====
-- Any sequence of calls of the forwarding methods of bn-manager.go.
use node_manager_core.Base.{◌≡◌, refl, ap, List, [], ◌∷◌}
use node_manager_core.Services.{Manager, Run, run_function0, run_function2}
use node_manager_core.Services.Failover.{IsConsistent, run_function1-IsConsistent}
use node_manager_core.Services.Sequences.{
  Lessens, Lessens-refl, Lessens-trans, run_function1-Lessens, exhausted_step, IsExhausted,
}
use node_manager_core.Services.BeaconNode.{
  BeaconTypes, BeaconClient, BeaconCall, get_sync_status, get_eth2_config,
  get_eth2_deposit_contract, get_attestations, get_beacon_block, get_beacon_block_header,
  get_beacon_head, get_validator_status_by_index, get_validator_status, get_validator_statuses,
  get_validator_index, get_validator_sync_duties, get_validator_proposer_duties, get_domain_data,
  exit_validator, close, get_eth1_data_for_eth2_block, get_committees_for_epoch,
  change_withdrawal_credentials, get_sync_status_call, get_eth2_config_call,
  get_eth2_deposit_contract_call, get_attestations_call, get_beacon_block_call,
  get_beacon_block_header_call, get_beacon_head_call, get_validator_status_by_index_call,
  get_validator_status_call, get_validator_statuses_call, get_validator_index_call,
  get_validator_sync_duties_call, get_validator_proposer_duties_call, get_domain_data_call,
  exit_validator_call, close_call, get_eth1_data_for_eth2_block_call, get_committees_for_epoch_call,
  change_withdrawal_credentials_call,
}

module _ (t : BeaconTypes) (W : Type 0) where
  abbrev kept : {C R : Type 0} → Run C W R → Manager C × W
  kept (o, m, w) = (m, w)

  -- What a call leaves of the manager and of the world outside.
  unfoldable pub perform :
      BeaconCall t W → Manager (BeaconClient t W) → W → Manager (BeaconClient t W) × W
  perform (get_sync_status_call ctx) m w = kept (get_sync_status t W ctx m w)
  perform (get_eth2_config_call ctx) m w = kept (get_eth2_config t W ctx m w)
  perform (get_eth2_deposit_contract_call ctx) m w = kept (get_eth2_deposit_contract t W ctx m w)
  perform (get_attestations_call ctx block_id) m w = kept (get_attestations t W ctx block_id m w)
  perform (get_beacon_block_call ctx block_id) m w = kept (get_beacon_block t W ctx block_id m w)
  perform (get_beacon_block_header_call ctx block_id) m w =
      kept (get_beacon_block_header t W ctx block_id m w)
  perform (get_beacon_head_call ctx) m w = kept (get_beacon_head t W ctx m w)
  perform (get_validator_status_by_index_call ctx index opts) m w =
      kept (get_validator_status_by_index t W ctx index opts m w)
  perform (get_validator_status_call ctx pubkey opts) m w =
      kept (get_validator_status t W ctx pubkey opts m w)
  perform (get_validator_statuses_call ctx pubkeys opts) m w =
      kept (get_validator_statuses t W ctx pubkeys opts m w)
  perform (get_validator_index_call ctx pubkey) m w = kept (get_validator_index t W ctx pubkey m w)
  perform (get_validator_sync_duties_call ctx indices epoch) m w =
      kept (get_validator_sync_duties t W ctx indices epoch m w)
  perform (get_validator_proposer_duties_call ctx indices epoch) m w =
      kept (get_validator_proposer_duties t W ctx indices epoch m w)
  perform (get_domain_data_call ctx domain_type epoch use_genesis_fork) m w =
      kept (get_domain_data t W ctx domain_type epoch use_genesis_fork m w)
  perform (exit_validator_call ctx validator_index epoch signature) m w =
      kept (exit_validator t W ctx validator_index epoch signature m w)
  perform (close_call ctx) m w = kept (close t W ctx m w)
  perform (get_eth1_data_for_eth2_block_call ctx block_id) m w =
      kept (get_eth1_data_for_eth2_block t W ctx block_id m w)
  perform (get_committees_for_epoch_call ctx epoch) m w =
      kept (get_committees_for_epoch t W ctx epoch m w)
  perform
        (change_withdrawal_credentials_call ctx validator_index from_bls_pubkey to_execution_address
          signature)
        m w =
      kept (
        change_withdrawal_credentials t W ctx validator_index from_bls_pubkey to_execution_address
          signature m w)

  unfoldable pub perform_all :
      List (BeaconCall t W) → Manager (BeaconClient t W) → W → Manager (BeaconClient t W) × W
  perform_all [] m w = (m, w)
  perform_all (c ∷ cs) m w = let (m', w') = perform c m w in perform_all cs m' w'

  perform-Lessens :
      (c : BeaconCall t W) (m : Manager (BeaconClient t W)) (w : W) → Lessens m (perform c m w).0
  unfolding perform run_function0 run_function2 get_sync_status get_eth2_config
      get_eth2_deposit_contract get_attestations get_beacon_block get_beacon_block_header
      get_beacon_head get_validator_status_by_index get_validator_status get_validator_statuses
      get_validator_index get_validator_sync_duties get_validator_proposer_duties get_domain_data
      exit_validator close get_eth1_data_for_eth2_block get_committees_for_epoch
      change_withdrawal_credentials
  perform-Lessens (get_sync_status_call ctx) m w =
      run_function1-Lessens (λ client. client.get_sync_status ctx) m w
  perform-Lessens (get_eth2_config_call ctx) m w =
      run_function1-Lessens (λ client. client.get_eth2_config ctx) m w
  perform-Lessens (get_eth2_deposit_contract_call ctx) m w =
      run_function1-Lessens (λ client. client.get_eth2_deposit_contract ctx) m w
  perform-Lessens (get_attestations_call ctx block_id) m w =
      run_function1-Lessens (λ client. client.get_attestations ctx block_id) m w
  perform-Lessens (get_beacon_block_call ctx block_id) m w =
      run_function1-Lessens (λ client. client.get_beacon_block ctx block_id) m w
  perform-Lessens (get_beacon_block_header_call ctx block_id) m w =
      run_function1-Lessens (λ client. client.get_beacon_block_header ctx block_id) m w
  perform-Lessens (get_beacon_head_call ctx) m w =
      run_function1-Lessens (λ client. client.get_beacon_head ctx) m w
  perform-Lessens (get_validator_status_by_index_call ctx index opts) m w =
      run_function1-Lessens (λ client. client.get_validator_status_by_index ctx index opts) m w
  perform-Lessens (get_validator_status_call ctx pubkey opts) m w =
      run_function1-Lessens (λ client. client.get_validator_status ctx pubkey opts) m w
  perform-Lessens (get_validator_statuses_call ctx pubkeys opts) m w =
      run_function1-Lessens (λ client. client.get_validator_statuses ctx pubkeys opts) m w
  perform-Lessens (get_validator_index_call ctx pubkey) m w =
      run_function1-Lessens (λ client. client.get_validator_index ctx pubkey) m w
  perform-Lessens (get_validator_sync_duties_call ctx indices epoch) m w =
      run_function1-Lessens (λ client. client.get_validator_sync_duties ctx indices epoch) m w
  perform-Lessens (get_validator_proposer_duties_call ctx indices epoch) m w =
      run_function1-Lessens (λ client. client.get_validator_proposer_duties ctx indices epoch) m w
  perform-Lessens (get_domain_data_call ctx domain_type epoch use_genesis_fork) m w =
      run_function1-Lessens
        (λ client. client.get_domain_data ctx domain_type epoch use_genesis_fork) m w
  perform-Lessens (exit_validator_call ctx validator_index epoch signature) m w =
      run_function1-Lessens (λ client. client.exit_validator ctx validator_index epoch signature) m
        w
  perform-Lessens (close_call ctx) m w = run_function1-Lessens (λ client. client.close ctx) m w
  perform-Lessens (get_eth1_data_for_eth2_block_call ctx block_id) m w =
      run_function1-Lessens (λ client. client.get_eth1_data_for_eth2_block ctx block_id) m w
  perform-Lessens (get_committees_for_epoch_call ctx epoch) m w =
      run_function1-Lessens (λ client. client.get_committees_for_epoch ctx epoch) m w
  perform-Lessens
        (change_withdrawal_credentials_call ctx validator_index from_bls_pubkey to_execution_address
          signature)
        m w =
      run_function1-Lessens
        (λ client.
          client.change_withdrawal_credentials ctx validator_index from_bls_pubkey
            to_execution_address signature)
        m w

  perform-IsConsistent :
      (c : BeaconCall t W) (m : Manager (BeaconClient t W)) (w : W)
      → IsConsistent m
      → IsConsistent (perform c m w).0
  unfolding perform run_function0 run_function2 get_sync_status get_eth2_config
      get_eth2_deposit_contract get_attestations get_beacon_block get_beacon_block_header
      get_beacon_head get_validator_status_by_index get_validator_status get_validator_statuses
      get_validator_index get_validator_sync_duties get_validator_proposer_duties get_domain_data
      exit_validator close get_eth1_data_for_eth2_block get_committees_for_epoch
      change_withdrawal_credentials
  perform-IsConsistent (get_sync_status_call ctx) m w c =
      run_function1-IsConsistent (λ client. client.get_sync_status ctx) m w c
  perform-IsConsistent (get_eth2_config_call ctx) m w c =
      run_function1-IsConsistent (λ client. client.get_eth2_config ctx) m w c
  perform-IsConsistent (get_eth2_deposit_contract_call ctx) m w c =
      run_function1-IsConsistent (λ client. client.get_eth2_deposit_contract ctx) m w c
  perform-IsConsistent (get_attestations_call ctx block_id) m w c =
      run_function1-IsConsistent (λ client. client.get_attestations ctx block_id) m w c
  perform-IsConsistent (get_beacon_block_call ctx block_id) m w c =
      run_function1-IsConsistent (λ client. client.get_beacon_block ctx block_id) m w c
  perform-IsConsistent (get_beacon_block_header_call ctx block_id) m w c =
      run_function1-IsConsistent (λ client. client.get_beacon_block_header ctx block_id) m w c
  perform-IsConsistent (get_beacon_head_call ctx) m w c =
      run_function1-IsConsistent (λ client. client.get_beacon_head ctx) m w c
  perform-IsConsistent (get_validator_status_by_index_call ctx index opts) m w c =
      run_function1-IsConsistent (λ client. client.get_validator_status_by_index ctx index opts) m w
        c
  perform-IsConsistent (get_validator_status_call ctx pubkey opts) m w c =
      run_function1-IsConsistent (λ client. client.get_validator_status ctx pubkey opts) m w c
  perform-IsConsistent (get_validator_statuses_call ctx pubkeys opts) m w c =
      run_function1-IsConsistent (λ client. client.get_validator_statuses ctx pubkeys opts) m w c
  perform-IsConsistent (get_validator_index_call ctx pubkey) m w c =
      run_function1-IsConsistent (λ client. client.get_validator_index ctx pubkey) m w c
  perform-IsConsistent (get_validator_sync_duties_call ctx indices epoch) m w c =
      run_function1-IsConsistent (λ client. client.get_validator_sync_duties ctx indices epoch) m w
        c
  perform-IsConsistent (get_validator_proposer_duties_call ctx indices epoch) m w c =
      run_function1-IsConsistent (λ client. client.get_validator_proposer_duties ctx indices epoch)
        m w c
  perform-IsConsistent (get_domain_data_call ctx domain_type epoch use_genesis_fork) m w c =
      run_function1-IsConsistent
        (λ client. client.get_domain_data ctx domain_type epoch use_genesis_fork) m w c
  perform-IsConsistent (exit_validator_call ctx validator_index epoch signature) m w c =
      run_function1-IsConsistent
        (λ client. client.exit_validator ctx validator_index epoch signature) m w c
  perform-IsConsistent (close_call ctx) m w c =
      run_function1-IsConsistent (λ client. client.close ctx) m w c
  perform-IsConsistent (get_eth1_data_for_eth2_block_call ctx block_id) m w c =
      run_function1-IsConsistent (λ client. client.get_eth1_data_for_eth2_block ctx block_id) m w c
  perform-IsConsistent (get_committees_for_epoch_call ctx epoch) m w c =
      run_function1-IsConsistent (λ client. client.get_committees_for_epoch ctx epoch) m w c
  perform-IsConsistent
        (change_withdrawal_credentials_call ctx validator_index from_bls_pubkey to_execution_address
          signature)
        m w c =
      run_function1-IsConsistent
        (λ client.
          client.change_withdrawal_credentials ctx validator_index from_bls_pubkey
            to_execution_address signature)
        m w c

  exhausted_call :
      (c : BeaconCall t W) (m : Manager (BeaconClient t W)) (w : W)
      → IsExhausted m
      → perform c m w ≡ (m, w)
  unfolding perform run_function0 run_function2 get_sync_status get_eth2_config
      get_eth2_deposit_contract get_attestations get_beacon_block get_beacon_block_header
      get_beacon_head get_validator_status_by_index get_validator_status get_validator_statuses
      get_validator_index get_validator_sync_duties get_validator_proposer_duties get_domain_data
      exit_validator close get_eth1_data_for_eth2_block get_committees_for_epoch
      change_withdrawal_credentials
  exhausted_call (get_sync_status_call ctx) m w h =
      ap kept (exhausted_step (λ client. client.get_sync_status ctx) m w h)
  exhausted_call (get_eth2_config_call ctx) m w h =
      ap kept (exhausted_step (λ client. client.get_eth2_config ctx) m w h)
  exhausted_call (get_eth2_deposit_contract_call ctx) m w h =
      ap kept (exhausted_step (λ client. client.get_eth2_deposit_contract ctx) m w h)
  exhausted_call (get_attestations_call ctx block_id) m w h =
      ap kept (exhausted_step (λ client. client.get_attestations ctx block_id) m w h)
  exhausted_call (get_beacon_block_call ctx block_id) m w h =
      ap kept (exhausted_step (λ client. client.get_beacon_block ctx block_id) m w h)
  exhausted_call (get_beacon_block_header_call ctx block_id) m w h =
      ap kept (exhausted_step (λ client. client.get_beacon_block_header ctx block_id) m w h)
  exhausted_call (get_beacon_head_call ctx) m w h =
      ap kept (exhausted_step (λ client. client.get_beacon_head ctx) m w h)
  exhausted_call (get_validator_status_by_index_call ctx index opts) m w h =
      ap kept (exhausted_step (λ client. client.get_validator_status_by_index ctx index opts) m w h)
  exhausted_call (get_validator_status_call ctx pubkey opts) m w h =
      ap kept (exhausted_step (λ client. client.get_validator_status ctx pubkey opts) m w h)
  exhausted_call (get_validator_statuses_call ctx pubkeys opts) m w h =
      ap kept (exhausted_step (λ client. client.get_validator_statuses ctx pubkeys opts) m w h)
  exhausted_call (get_validator_index_call ctx pubkey) m w h =
      ap kept (exhausted_step (λ client. client.get_validator_index ctx pubkey) m w h)
  exhausted_call (get_validator_sync_duties_call ctx indices epoch) m w h =
      ap kept (exhausted_step (λ client. client.get_validator_sync_duties ctx indices epoch) m w h)
  exhausted_call (get_validator_proposer_duties_call ctx indices epoch) m w h =
      ap kept
        (exhausted_step (λ client. client.get_validator_proposer_duties ctx indices epoch) m w h)
  exhausted_call (get_domain_data_call ctx domain_type epoch use_genesis_fork) m w h = ap kept (
      exhausted_step (λ client. client.get_domain_data ctx domain_type epoch use_genesis_fork) m w
        h)
  exhausted_call (exit_validator_call ctx validator_index epoch signature) m w h =
      ap kept
        (exhausted_step (λ client. client.exit_validator ctx validator_index epoch signature) m w h)
  exhausted_call (close_call ctx) m w h =
      ap kept (exhausted_step (λ client. client.close ctx) m w h)
  exhausted_call (get_eth1_data_for_eth2_block_call ctx block_id) m w h =
      ap kept (exhausted_step (λ client. client.get_eth1_data_for_eth2_block ctx block_id) m w h)
  exhausted_call (get_committees_for_epoch_call ctx epoch) m w h =
      ap kept (exhausted_step (λ client. client.get_committees_for_epoch ctx epoch) m w h)
  exhausted_call
        (change_withdrawal_credentials_call ctx validator_index from_bls_pubkey to_execution_address
          signature)
        m w h =
      ap kept (
        exhausted_step
          (λ client.
            client.change_withdrawal_credentials ctx validator_index from_bls_pubkey
              to_execution_address signature)
          m w h)

  idle_calls :
      (cs : List (BeaconCall t W)) (m : Manager (BeaconClient t W)) (w : W)
      → IsExhausted m
      → perform_all cs m w ≡ (m, w)
  unfolding perform_all
  idle_calls [] m w h = refl
  idle_calls (x ∷ cs) m w h = rw (exhausted_call x m w h, idle_calls cs m w h)

  -- Any sequence of calls of the beacon client manager's forwarding methods, whatever the clients answer,
  -- changes nothing of the manager but its two flags, makes no client ready that was not, and keeps the
  -- flags consistent with the clients; with no client ready it changes nothing and reaches no client.
  pub beacon_node_calls-Lessens :
      (cs : List (BeaconCall t W)) (m : Manager (BeaconClient t W)) (w : W)
      → IsConsistent m
      → Lessens m (perform_all cs m w).0
        × IsConsistent (perform_all cs m w).0
        × (IsExhausted m → perform_all cs m w ≡ (m, w))
  unfolding perform_all
  beacon_node_calls-Lessens [] m w c = (Lessens-refl m, c, λ h. refl)
  beacon_node_calls-Lessens (x ∷ cs) m w c =
      let (l, d, e) =
        beacon_node_calls-Lessens cs (perform x m w).0 (perform x m w).1
          (perform-IsConsistent x m w c) in
      (
        Lessens-trans (perform-Lessens x m w) l,
        d,
        λ h. rw (exhausted_call x m w h, idle_calls cs m w h),
      )
