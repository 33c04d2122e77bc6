-- ===== src/Beacon/Requests.antt =====
-- The smaller requests of beacon/client/std-client.go: the sync status, the deposit contract, headers, and
-- the two messages that are posted.
use node_manager_core.Base.{ℕ, ◌+◌, ◌%◌, ◌^◌, Bool, Option}
use node_manager_core.Utils.Hex.{Bytes}
use node_manager_core.Beacon.{Answer, answered, failed}
use node_manager_core.Beacon.Blocks.{BeaconBlockHeader, found}

pub record SyncStatusResponse : Type 0 where
  pub is_syncing : Bool
  pub head_slot : ℕ
  pub sync_distance : ℕ

-- The progress is a quotient: the head's slot, by the sum of two uint64, which wraps.
pub record SyncStatus : Type 0 where
  pub syncing : Bool
  pub done_slots : ℕ
  pub all_slots : ℕ

unfoldable pub get_sync_status : Answer SyncStatusResponse → Answer SyncStatus
get_sync_status (failed e) = failed e
get_sync_status (answered r) = answered (record {
  syncing = r.is_syncing;
  done_slots = r.head_slot;
  all_slots = (r.head_slot + r.sync_distance) % 2 ^ 64;
})

pub record DepositContract : Type 0 where
  pub deposit_chain_id : ℕ
  pub deposit_address : Bytes

unfoldable pub get_eth2_deposit_contract : Answer DepositContract → Answer DepositContract
get_eth2_deposit_contract (failed e) = failed e
get_eth2_deposit_contract (answered c) =
    answered (record { deposit_chain_id = c.deposit_chain_id; deposit_address = c.deposit_address })

pub record HeaderResponse : Type 0 where
  pub is_finalized : Bool
  pub root : Bytes
  pub is_canonical : Bool
  pub response_slot : ℕ
  pub response_proposer : Bytes

unfoldable pub get_beacon_block_header :
    Answer (Option HeaderResponse) → Answer (Option BeaconBlockHeader)
get_beacon_block_header response =
    found
      (λ r.
        answered (record { header_slot = r.response_slot; proposer_index = r.response_proposer }))
      response

pub record VoluntaryExitMessage : Type 0 where
  pub exit_message_epoch : ℕ
  pub exit_validator_index : Bytes

pub record VoluntaryExitRequest : Type 0 where
  pub exit_message : VoluntaryExitMessage
  pub exit_signature : Bytes

unfoldable pub exit_validator :
    (VoluntaryExitRequest → Answer (Unit {0})) → Bytes → ℕ → Bytes → Answer (Unit {0})
exit_validator post validator_index epoch signature = post (record {
  exit_message = record { exit_message_epoch = epoch; exit_validator_index = validator_index };
  exit_signature = signature;
})

pub record BlsToExecutionChangeMessage : Type 0 where
  pub change_validator_index : Bytes
  pub from_bls_pubkey : Bytes
  pub to_execution_address : Bytes

pub record BlsToExecutionChangeRequest : Type 0 where
  pub change_message : BlsToExecutionChangeMessage
  pub change_signature : Bytes

unfoldable pub change_withdrawal_credentials :
    (BlsToExecutionChangeRequest → Answer (Unit {0}))
    → Bytes
    → Bytes
    → Bytes
    → Bytes
    → Answer (Unit {0})
change_withdrawal_credentials post validator_index pubkey address signature = post (record {
  change_message = record {
    change_validator_index = validator_index;
    from_bls_pubkey = pubkey;
    to_execution_address = address;
  };
  change_signature = signature;
})
