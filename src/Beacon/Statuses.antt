-- ===== src/Beacon/Statuses.antt =====
-- The statuses and duties of validators in beacon/client/std-client.go, over the requests of
-- `getValidatorsByOpts`, and the responses of beacon/client/types.go.
pub mod Requested
pub mod Reported
use node_manager_core.Base.{
  ℕ, zero, suc, ◌+◌, String, Bool, true, false, Option, none, some, List, [], ◌∷◌, ◌++◌, map,
  length, take, drop, ltb, if◌then◌else◌, ◌-◌, ◌==◌,
}
use node_manager_core.Utils.Hex.{
  Bytes, codes, same, validator_pubkey_length, pubkey_hex_with_prefix,
}
use node_manager_core.Beacon.{
  Answer, answered, failed, StateId, Batch, ValidatorStatusOptions, Fetched, fetched, fetch_failed,
  crashed, get_validators_by_opts,
}

-- `Validator` of the responses.
pub record Validator : Type 0 where
  pub index : Bytes
  pub balance : ℕ
  pub state : Bytes
  pub pubkey : Bytes
  pub withdrawal_credentials : Bytes
  pub effective_balance : ℕ
  pub slashed : Bool
  pub activation_eligibility_epoch : ℕ
  pub activation_epoch : ℕ
  pub exit_epoch : ℕ
  pub withdrawable_epoch : ℕ

pub record ValidatorStatus : Type 0 where
  pub status_pubkey : Bytes
  pub status_index : Bytes
  pub credentials : Bytes
  pub status_balance : ℕ
  pub status_state : Bytes
  pub status_effective_balance : ℕ
  pub is_slashed : Bool
  pub eligibility_epoch : ℕ
  pub start_epoch : ℕ
  pub end_epoch : ℕ
  pub withdraw_epoch : ℕ
  pub does_exist : Bool

pub data Result (A : Type 0) : Type 0 where
  ok : A → Result A
  err : String → Result A
  panic : Result A

abbrev pub zeros : ℕ → Bytes
zeros zero = []
zeros (suc n) = 0 ∷ zeros n

abbrev pub null_pubkey : Bytes
null_pubkey = zeros validator_pubkey_length

-- `common.BytesToHash`: the last 32 bytes, with zeros on the left.
unfoldable pub bytes_to_hash : Bytes → Bytes
bytes_to_hash b = zeros (32 - length b) ++ drop (length b - 32) b

abbrev pub empty_status : ValidatorStatus
empty_status = record {
  status_pubkey = null_pubkey;
  status_index = [];
  credentials = zeros 32;
  status_balance = 0;
  status_state = [];
  status_effective_balance = 0;
  is_slashed = false;
  eligibility_epoch = 0;
  start_epoch = 0;
  end_epoch = 0;
  withdraw_epoch = 0;
  does_exist = false;
}

-- A slice as an array of 48 bytes: the first ones, and a panic where there are fewer.
abbrev pub to_pubkey : Bytes → Option Bytes
to_pubkey b =
    if ltb (length b) validator_pubkey_length then none else some (take validator_pubkey_length b)

unfoldable pub status_of : Validator → Bytes → ValidatorStatus
unfolding bytes_to_hash
status_of v key = record {
  status_pubkey = key;
  status_index = v.index;
  credentials = bytes_to_hash v.withdrawal_credentials;
  status_balance = v.balance;
  status_state = v.state;
  status_effective_balance = v.effective_balance;
  is_slashed = v.slashed;
  eligibility_epoch = v.activation_eligibility_epoch;
  start_epoch = v.activation_epoch;
  end_epoch = v.exit_epoch;
  withdraw_epoch = v.withdrawable_epoch;
  does_exist = true;
}

-- A Go map.
abbrev pub Map : Type 0 → Type 0
Map A = Bytes → Option A

abbrev pub insert : {A : Type 0} → Bytes → A → Map A → Map A
insert k a m x = if same k x then some a else m x

abbrev pub empty_map : {A : Type 0} → Map A
empty_map x = none

abbrev pub is_in : Bytes → List Bytes → Bool
is_in p [] = false
is_in p (q ∷ qs) = if same p q then true else is_in p qs

module _ (is_bls_key : Bytes → Bool) where
  -- Null and duplicate keys are left out; one that is no point of the curve ends the request.
  unfoldable pub real_pubkeys : List Bytes → List Bytes → Result (List Bytes)
  real_pubkeys real [] = ok real
  real_pubkeys real (p ∷ ps) =
      let skip = real_pubkeys real ps in
      let keep = real_pubkeys (real ++ (p ∷ [])) ps in
      if same p null_pubkey
      then skip
      else if is_in p real
      then skip
      else if is_bls_key p
      then keep
      else err "error creating pubkey"

abbrev pub add_status :
    Validator → Option Bytes → Map ValidatorStatus → Option (Map ValidatorStatus)
add_status v none m = none
add_status v (some key) m = some (insert key (status_of v key) m)

-- The loop over the response; nothing where a public key is too short and the source panics.
unfoldable pub build : List Validator → Option (Map ValidatorStatus) → Option (Map ValidatorStatus)
unfolding status_of
build [] m = m
build (v ∷ vs) none = none
build (v ∷ vs) (some m) =
    build vs (if same v.pubkey null_pubkey then some m else add_status v (to_pubkey v.pubkey) m)

abbrev pub with_null : Option (Map ValidatorStatus) → Result (Map ValidatorStatus)
with_null none = panic
with_null (some m) = ok (insert null_pubkey empty_status m)

abbrev pub built : Fetched Validator → Result (Map ValidatorStatus)
built (fetched vs) = with_null (build vs (some empty_map))
built (fetch_failed e) = err e
built crashed = panic

abbrev pub status_with : Validator → Option Bytes → Result ValidatorStatus
status_with v none = panic
status_with v (some key) = ok (status_of v key)

abbrev pub first_status : Fetched Validator → Result ValidatorStatus
first_status (fetched []) = ok empty_status
first_status (fetched (v ∷ vs)) = status_with v (to_pubkey v.pubkey)
first_status (fetch_failed e) = err e
first_status crashed = panic

abbrev pub index_of : Fetched Validator → Result Bytes
index_of (fetched []) = err "validator index not found"
index_of (fetched (v ∷ vs)) = ok v.index
index_of (fetch_failed e) = err e
index_of crashed = panic

-- A duty is the index of its validator.
abbrev pub sync_duty : Bytes → List Bytes → Bool
sync_duty index [] = false
sync_duty index (d ∷ ds) = if same d index then true else sync_duty index ds

abbrev pub proposer_duty : Bytes → List Bytes → ℕ
proposer_duty index [] = 0
proposer_duty index (d ∷ ds) = if same d index then 1 else proposer_duty index ds

unfoldable pub fill : {A : Type 0} → (Bytes → A) → List Bytes → Map A → Map A
fill f [] m = m
fill f (x ∷ xs) m = fill f xs (insert x (f x) m)

abbrev pub sync_duties : List Bytes → Answer (List Bytes) → Answer (Map Bool)
sync_duties indices (failed e) = failed e
sync_duties indices (answered ds) = answered (fill (λ x. sync_duty x ds) indices empty_map)

abbrev pub proposer_duties : List Bytes → Answer (List Bytes) → Answer (Map ℕ)
proposer_duties indices (failed e) = failed e
proposer_duties indices (answered ds) = answered (fill (λ x. proposer_duty x ds) indices empty_map)

unfoldable pub get_validator_sync_duties :
    (List Bytes → ℕ → Answer (List Bytes)) → List Bytes → ℕ → Answer (Map Bool)
unfolding fill
get_validator_sync_duties post indices epoch = sync_duties indices (post indices epoch)

unfoldable pub get_validator_proposer_duties :
    (List Bytes → ℕ → Answer (List Bytes)) → List Bytes → ℕ → Answer (Map ℕ)
unfolding fill
get_validator_proposer_duties post indices epoch = proposer_duties indices (post indices epoch)

-- The provider's answers, the state's slots per epoch and the schedule of the batches are those of
-- `get_validators_by_opts`.
module _ (provider : StateId → List Bytes → Answer (List Validator)) (spec : Answer ℕ)
    (schedule : List Batch → List Batch) where
  unfoldable pub get_validator_status_of :
      Bytes → Option ValidatorStatusOptions → Result ValidatorStatus
  unfolding get_validators_by_opts
  get_validator_status_of [] opts = ok empty_status
  get_validator_status_of (c ∷ cs) opts =
      first_status (get_validators_by_opts provider spec opts schedule ((c ∷ cs) ∷ []))

  unfoldable pub get_validator_status :
      Bytes → Option ValidatorStatusOptions → Result ValidatorStatus
  unfolding get_validator_status_of
  get_validator_status key opts = get_validator_status_of (pubkey_hex_with_prefix key) opts

  unfoldable pub get_validator_index : Bytes → Result Bytes
  get_validator_index key =
      index_of
        (get_validators_by_opts provider spec none schedule (pubkey_hex_with_prefix key ∷ []))

  abbrev pub statuses_of :
      Option ValidatorStatusOptions → Result (List Bytes) → Result (Map ValidatorStatus)
  statuses_of opts (err e) = err e
  statuses_of opts panic = panic
  statuses_of opts (ok real) =
      built (get_validators_by_opts provider spec opts schedule (map pubkey_hex_with_prefix real))

  unfoldable pub get_validator_statuses :
      (Bytes → Bool) → List Bytes → Option ValidatorStatusOptions → Result (Map ValidatorStatus)
  unfolding real_pubkeys build
  get_validator_statuses is_bls_key pubkeys opts =
      statuses_of opts (real_pubkeys is_bls_key [] pubkeys)
