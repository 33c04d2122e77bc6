-- ===== src/Tests/Beacon.antt =====
-- The batches of the beacon client at concrete inputs. A validator is its ID.
use node_manager_core.Base.{
  length, ap, Bool, true, false, map, if◌then◌else◌, ℕ, ◌≡◌, ◌^◌, zero, suc, refl, none, some, List,
  [], ◌∷◌, arith,
}
use node_manager_core.Utils.Hex.{Bytes, codes}
use node_manager_core.Beacon.Statuses.{
  Validator, ValidatorStatus, ok, Map, insert, empty_map, null_pubkey, empty_status, status_of,
  is_in, get_validator_statuses, get_validator_sync_duties, get_validator_proposer_duties,
}
use node_manager_core.Beacon.Statuses.Requested.{duties_iff}
use node_manager_core.Beacon.Statuses.Reported.{IsReport, get_validator_statuses-IsReport}
use node_manager_core.Beacon.{
  Answer, answered, StateId, head, at_slot, Batch, batches, batches_from, place, write_at, gather,
  clip, result, ask_provider, fetched, state_id, get_validators_by_opts,
  max_request_validators_count,
}
use node_manager_core.Beacon.Batches.{Done, first_error}
use node_manager_core.Base.Reorders.{Reorders, nothing, put, here, there}
use node_manager_core.Beacon.Slots.{IsBounded, joined}
use node_manager_core.Beacon.Fetching.{outcome, requested, get_validators_by_opts-Reorders}

-- The provider knows every validator.
abbrev echo : StateId → List Bytes → Answer (List Bytes)
echo st ids = answered ids

echo-IsBounded : IsBounded echo
echo-IsBounded st ids = omega arith

abbrev three : List Bytes
three = codes "a" ∷ codes "b" ∷ codes "c" ∷ []

three-batches : batches 2 three ≡ (0, codes "a" ∷ codes "b" ∷ []) ∷ (2, codes "c" ∷ []) ∷ []
unfolding batches batches_from
three-batches = refl

-- The second batch comes in first.
abbrev two_answers : List (Done Bytes)
two_answers = (2, answered (codes "c" ∷ [])) ∷ (0, answered (codes "b" ∷ [])) ∷ []

late_first :
    result (gather two_answers (none ∷ none ∷ none ∷ []) none)
    ≡ fetched (codes "b" ∷ codes "c" ∷ [])
unfolding result gather place write_at clip
late_first = refl

-- The position of an epoch's first slot wraps.
epoch_slot :
    state_id (answered 32) (some (record { epoch = some (2 ^ 63); slot = none }))
    ≡ answered (at_slot 0)
unfolding state_id
epoch_slot = refl

abbrev copies : ℕ → List Bytes
copies zero = []
copies (suc n) = codes "a" ∷ copies n

-- One ID more than a batch takes.
abbrev many : List Bytes
many = copies 601

-- The second batch is finished first.
abbrev late : List Batch → List Batch
late (a ∷ b ∷ bs) = b ∷ a ∷ bs
late bs = bs

same-Reorders : (bs : List Batch) → Reorders bs bs
same-Reorders [] = nothing
same-Reorders (b ∷ bs) = put b bs bs _ (same-Reorders bs) (here bs)

late-Reorders : (bs : List Batch) → Reorders bs (late bs)
late-Reorders [] = nothing
late-Reorders (a ∷ []) = same-Reorders (a ∷ [])
late-Reorders (a ∷ b ∷ bs) = put a _ _ _ (same-Reorders (b ∷ bs)) (there b bs (a ∷ bs) (here bs))

get_validators_by_opts-Reorders_example :
    (requested (batches max_request_validators_count many) ≡ many)
    × (get_validators_by_opts echo (answered 32) none late many
        ≡ outcome
            (first_error none
              (ask_provider echo head (late (batches max_request_validators_count many))))
            (joined (ask_provider echo head (batches max_request_validators_count many))))
unfolding state_id
get_validators_by_opts-Reorders_example =
    get_validators_by_opts-Reorders echo (answered 32) none late many head echo-IsBounded
      (late-Reorders (batches max_request_validators_count many)) refl

abbrev filled : ℕ → Bytes
filled zero = []
filled (suc n) = 7 ∷ filled n

abbrev seven : Bytes
seven = filled 48

-- A provider that answers with one validator for each ID, with the same public key.
abbrev toy_validator : Validator
toy_validator = record {
  index = codes "7";
  balance = 32;
  state = codes "active_ongoing";
  pubkey = seven;
  withdrawal_credentials = 1 ∷ [];
  effective_balance = 32;
  slashed = false;
  activation_eligibility_epoch = 1;
  activation_epoch = 2;
  exit_epoch = 3;
  withdrawable_epoch = 4;
}

abbrev one_validator : StateId → List Bytes → Answer (List Validator)
one_validator st ids = answered (map (λ id. toy_validator) ids)

abbrev asked : List Bytes
asked = seven ∷ null_pubkey ∷ seven ∷ []

one_validator-length :
    (ids : List Bytes) → length (map (λ (id : Bytes). toy_validator) ids) ≡ length ids
one_validator-length [] = refl
one_validator-length (i ∷ ids) = ap suc (one_validator-length ids)

one_validator-IsBounded : IsBounded one_validator
one_validator-IsBounded st ids = omega (arith, one_validator-length ids)

abbrev reported_map : Map ValidatorStatus
reported_map =
    insert null_pubkey empty_status (insert seven (status_of toy_validator seven) empty_map)

statuses_run :
    get_validator_statuses one_validator (answered 32) late (λ k. true) asked none ≡ ok reported_map
unfolding get_validator_statuses get_validators_by_opts batches batches_from
statuses_run = refl

get_validator_statuses-IsReport_example :
    (real : List Bytes) × IsReport one_validator (answered 32) late asked none real reported_map
get_validator_statuses-IsReport_example =
    get_validator_statuses-IsReport one_validator (answered 32) late (λ k. true) asked none
      reported_map one_validator-IsBounded late-Reorders statuses_run

abbrev toy_post : List Bytes → ℕ → Answer (List Bytes)
toy_post indices epoch = answered (codes "2" ∷ codes "2" ∷ [])

duties_iff_example :
    (syncs : Map Bool) × (proposals : Map ℕ) × (get_validator_sync_duties toy_post
        (codes "1" ∷ codes "2" ∷ [])
        5
      ≡ answered syncs)
    × (get_validator_proposer_duties toy_post (codes "1" ∷ codes "2" ∷ []) 5 ≡ answered proposals)
    × ((x : Bytes)
        → syncs x ≡ (
            if is_in x (codes "1" ∷ codes "2" ∷ [])
            then some (is_in x (codes "2" ∷ codes "2" ∷ []))
            else none))
    × ((x : Bytes)
        → proposals x ≡ (
            if is_in x (codes "1" ∷ codes "2" ∷ [])
            then some (if is_in x (codes "2" ∷ codes "2" ∷ []) then 1 else 0)
            else none))
duties_iff_example =
    duties_iff toy_post (codes "1" ∷ codes "2" ∷ []) 5 (codes "2" ∷ codes "2" ∷ []) refl
