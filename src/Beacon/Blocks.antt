-- ===== src/Beacon/Blocks.antt =====
-- The chain and its blocks in beacon/client/std-client.go: configuration, head, deposit contract, domains
-- and blocks, from the responses of beacon/client/types.go.
use node_manager_core.Base.{
  ℕ, zero, suc, ◌+◌, ◌-◌, ◌*◌, ◌/◌, ◌%◌, ◌^◌, Bool, true, false, Option, none, some, List, [], ◌∷◌,
  ◌==◌, if◌then◌else◌,
}
use node_manager_core.Utils.Hex.{Bytes, decode_string, remove_prefix}
use node_manager_core.Beacon.{Answer, answered, failed}
use node_manager_core.Beacon.Statuses.{bytes_to_hash, Result, ok, err, panic}

pub record Spec : Type 0 where
  pub spec_seconds_per_slot : ℕ
  pub spec_slots_per_epoch : ℕ
  pub spec_epochs_per_period : ℕ
  pub capella_fork_version : Bytes

pub record Genesis : Type 0 where
  pub time : ℕ
  pub fork_version : Bytes
  pub validators_root : Bytes

pub record Eth2Config : Type 0 where
  pub genesis_fork_version : Bytes
  pub genesis_validators_root : Bytes
  pub genesis_epoch : ℕ
  pub genesis_time : ℕ
  pub seconds_per_slot : ℕ
  pub slots_per_epoch : ℕ
  pub seconds_per_epoch : ℕ
  pub epochs_per_sync_committee_period : ℕ

-- Two requests at the same time: the error that comes first, from the one that is done first.
abbrev pub both : {A B C : Type 0} → Bool → Answer A → Answer B → (A → B → C) → Answer C
both early (answered a) (answered b) f = answered (f a b)
both early (answered a) (failed e) f = failed e
both early (failed e) (answered b) f = failed e
both early (failed e) (failed e') f = failed (if early then e else e')

unfoldable pub config_of : Spec → Genesis → Eth2Config
config_of s g = record {
  genesis_fork_version = g.fork_version;
  genesis_validators_root = g.validators_root;
  genesis_epoch = 0;
  genesis_time = g.time;
  seconds_per_slot = s.spec_seconds_per_slot;
  slots_per_epoch = s.spec_slots_per_epoch;
  seconds_per_epoch = s.spec_seconds_per_slot * s.spec_slots_per_epoch % 2 ^ 64;
  epochs_per_sync_committee_period = s.spec_epochs_per_period;
}

unfoldable pub get_eth2_config : Bool → Answer Spec → Answer Genesis → Answer Eth2Config
unfolding config_of
get_eth2_config early spec genesis = both early spec genesis config_of

-- The difference and the sum of uint64 wrap; a division by 0 panics.
unfoldable pub epoch_at : Eth2Config → ℕ → Option ℕ
epoch_at config time =
    if config.seconds_per_epoch == 0
    then none
    else some (
        (config.genesis_epoch
          + (time + 2 ^ 64 - config.genesis_time) % 2 ^ 64 / config.seconds_per_epoch)
        % 2 ^ 64)

pub record FinalityCheckpoints : Type 0 where
  pub previous_justified : ℕ
  pub current_justified : ℕ
  pub finalized : ℕ

pub record BeaconHead : Type 0 where
  pub head_epoch : ℕ
  pub finalized_epoch : ℕ
  pub justified_epoch : ℕ
  pub previous_justified_epoch : ℕ

abbrev pub head_of : Option ℕ → FinalityCheckpoints → Result BeaconHead
head_of none f = panic
head_of (some epoch) f = ok (record {
  head_epoch = epoch;
  finalized_epoch = f.finalized;
  justified_epoch = f.current_justified;
  previous_justified_epoch = f.previous_justified;
})

abbrev pub settled : {A : Type 0} → Answer (Result A) → Result A
settled (answered r) = r
settled (failed e) = err e

unfoldable pub get_beacon_head :
    Bool → Answer Eth2Config → Answer FinalityCheckpoints → ℕ → Result BeaconHead
unfolding epoch_at
get_beacon_head early config checkpoints now =
    settled (both early config checkpoints (λ c f. head_of (epoch_at c now) f))

-- The domain's type is the first four bytes, with zeros where there are fewer.
abbrev pub four_bytes : ℕ → Bytes → Bytes
four_bytes zero b = []
four_bytes (suc n) [] = 0 ∷ four_bytes n []
four_bytes (suc n) (x ∷ b) = x ∷ four_bytes n b

-- `compute_domain` is the one of go-eth2-types.
unfoldable pub get_domain_data :
    (Bytes → Bytes → Bytes → Answer Bytes)
    → Bool
    → Answer Genesis
    → Answer Spec
    → Bytes
    → Bool
    → Answer Bytes
get_domain_data compute_domain early (answered g) (answered s) domain_type use_genesis_fork =
    compute_domain (four_bytes 4 domain_type)
      (if use_genesis_fork then g.fork_version else s.capella_fork_version) g.validators_root
get_domain_data compute_domain early (answered g) (failed e) domain_type use_genesis_fork = failed e
get_domain_data compute_domain early (failed e) (answered s) domain_type use_genesis_fork = failed e
get_domain_data compute_domain early (failed e) (failed e') domain_type use_genesis_fork =
    failed (if early then e else e')

pub record Attestation : Type 0 where
  pub aggregation_bits : Bytes
  pub slot : ℕ
  pub committee : ℕ

pub record ExecutionPayload : Type 0 where
  pub payload_fee_recipient : Bytes
  pub payload_block_number : ℕ

-- The message of a block.
pub record BlockMessage : Type 0 where
  pub message_slot : ℕ
  pub message_proposer : Bytes
  pub deposit_root : Bytes
  pub deposit_count : ℕ
  pub block_hash : Bytes
  pub message_attestations : List Attestation
  pub execution_payload : Option ExecutionPayload

pub record AttestationInfo : Type 0 where
  pub info_bits : Bytes
  pub slot_index : ℕ
  pub committee_index : ℕ

pub record BeaconBlockHeader : Type 0 where
  pub header_slot : ℕ
  pub proposer_index : Bytes

pub record BeaconBlock : Type 0 where
  pub header : BeaconBlockHeader
  pub has_execution_payload : Bool
  pub attestations : List AttestationInfo
  pub fee_recipient : Bytes
  pub execution_block_number : ℕ

pub record Eth1Data : Type 0 where
  pub eth1_deposit_root : Bytes
  pub eth1_deposit_count : ℕ
  pub eth1_block_hash : Bytes

abbrev pub info_with :
    Attestation → Option Bytes → Answer (List AttestationInfo) → Answer (List AttestationInfo)
info_with a none rest = failed "error decoding aggregation bits"
info_with a (some bits) (failed e) = failed e
info_with a (some bits) (answered is) =
    answered (record { info_bits = bits; slot_index = a.slot; committee_index = a.committee } ∷ is)

unfoldable pub infos : List Attestation → Answer (List AttestationInfo)
unfolding decode_string remove_prefix
infos [] = answered []
infos (a ∷ rest) = info_with a (decode_string (remove_prefix a.aggregation_bits)) (infos rest)

abbrev pub there : {B : Type 0} → Answer B → Answer (Option B)
there (failed e) = failed e
there (answered b) = answered (some b)

-- A response, or none where the block is not there.
abbrev pub found : {A B : Type 0} → (A → Answer B) → Answer (Option A) → Answer (Option B)
found f (failed e) = failed e
found f (answered none) = answered none
found f (answered (some a)) = there (f a)

unfoldable pub get_attestations :
    Answer (Option (List Attestation)) → Answer (Option (List AttestationInfo))
unfolding infos
get_attestations response = found infos response

abbrev pub zero_address : Bytes
zero_address = four_bytes 20 []

-- `bytes_to_address` is the one of go-ethereum.
abbrev pub payload_of :
    (Bytes → Bytes) → BlockMessage → Option ExecutionPayload → List AttestationInfo → BeaconBlock
payload_of bytes_to_address m none is = record {
  header = record { header_slot = m.message_slot; proposer_index = m.message_proposer };
  has_execution_payload = false;
  attestations = is;
  fee_recipient = zero_address;
  execution_block_number = 0;
}
payload_of bytes_to_address m (some p) is = record {
  header = record { header_slot = m.message_slot; proposer_index = m.message_proposer };
  has_execution_payload = true;
  attestations = is;
  fee_recipient = bytes_to_address p.payload_fee_recipient;
  execution_block_number = p.payload_block_number;
}

abbrev pub block_with :
    (Bytes → Bytes) → BlockMessage → Answer (List AttestationInfo) → Answer BeaconBlock
block_with bytes_to_address m (failed e) = failed e
block_with bytes_to_address m (answered is) =
    answered (payload_of bytes_to_address m m.execution_payload is)

unfoldable pub get_beacon_block :
    (Bytes → Bytes) → Answer (Option BlockMessage) → Answer (Option BeaconBlock)
unfolding infos
get_beacon_block bytes_to_address response =
    found (λ m. block_with bytes_to_address m (infos m.message_attestations)) response

unfoldable pub get_eth1_data_for_eth2_block :
    Answer (Option BlockMessage) → Answer (Option Eth1Data)
unfolding bytes_to_hash
get_eth1_data_for_eth2_block response =
    found
      (λ m. answered (record {
        eth1_deposit_root = bytes_to_hash m.deposit_root;
        eth1_deposit_count = m.deposit_count;
        eth1_block_hash = bytes_to_hash m.block_hash;
      }))
      response
