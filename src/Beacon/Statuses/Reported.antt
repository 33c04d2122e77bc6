-- ===== src/Beacon/Statuses/Reported.antt =====
-- What `GetValidatorStatuses` of beacon/client/std-client.go reports.
use node_manager_core.Base.{
  ℕ, subst, String, ◌≢◌, ◌≡◌, refl, ap, sym, ◌∙◌, Bool, true, false, Option, none, some, List, [],
  ◌∷◌, map, take, length, if◌then◌else◌, ltb,
}
use node_manager_core.Utils.Hex.{Bytes, same, validator_pubkey_length, pubkey_hex_with_prefix}
use node_manager_core.Beacon.{
  Answer, StateId, Batch, ValidatorStatusOptions, Fetched, fetched, fetch_failed, crashed,
  get_validators_by_opts, answered, failed, state_id, batches, ask_provider, fetch,
  max_request_validators_count,
}
use node_manager_core.Beacon.Slots.{IsBounded, joined}
use node_manager_core.Beacon.Fetching.{outcome, requested, get_validators_by_opts-Reorders}
use node_manager_core.Base.Reorders.{Reorders}
use node_manager_core.Beacon.Statuses.{
  Validator, ValidatorStatus, Result, ok, err, panic, null_pubkey, empty_status, to_pubkey,
  status_of, Map, insert, empty_map, add_status, build, with_null, built, real_pubkeys, statuses_of,
  get_validator_statuses,
}
use node_manager_core.Beacon.Statuses.Requested.{Requests, real_pubkeys-Requests}

abbrev pub or_else : Option ValidatorStatus → Option ValidatorStatus → Option ValidatorStatus
or_else none o = o
or_else (some s) o = some s

-- The status from the last of the validators that are reported with a public key.
abbrev pub reported : Bytes → List Validator → Option ValidatorStatus
reported key [] = none
reported key (v ∷ vs) = or_else (reported key vs) (
    if same v.pubkey null_pubkey
    then none
    else if same (take validator_pubkey_length v.pubkey) key
    then some (status_of v (take validator_pubkey_length v.pubkey))
    else none)

or_else_assoc : (a b c : Option ValidatorStatus) → or_else (or_else a b) c ≡ or_else a (or_else b c)
or_else_assoc none b c = refl
or_else_assoc (some s) b c = refl

abbrev step : Validator → Map ValidatorStatus → Option (Map ValidatorStatus)
step v m = if same v.pubkey null_pubkey then some m else add_status v (to_pubkey v.pubkey) m

build-none : (vs : List Validator) (m : Map ValidatorStatus) → build vs none ≢ some m
unfolding build
build-none [] m h = cc
build-none (v ∷ vs) m h = cc

either :
    (b : Bool) (s : ValidatorStatus) (o : Option ValidatorStatus)
    → (if b then some s else o) ≡ or_else (if b then some s else none) o
either true s o = refl
either false s o = refl

added :
    (v : Validator) (m : Map ValidatorStatus) (a b : Bool) (n : Map ValidatorStatus) (key : Bytes)
    → (if a
        then some m
        else add_status v (if b then none else some (take validator_pubkey_length v.pubkey)) m)
      ≡ some n
    → n key
      ≡ or_else
          (if a
            then none
            else if same (take validator_pubkey_length v.pubkey) key
            then some (status_of v (take validator_pubkey_length v.pubkey))
            else none)
          (m key)
added v m true b n key h = let e : m ≡ n = cc in ap (λ f. f key) (sym e)
added v m false true n key h = cc
added v m false false n key h =
    let k = take validator_pubkey_length v.pubkey in
    let e : insert k (status_of v k) m ≡ n = cc in
    ap (λ f. f key) (sym e) ∙ either (same k key) (status_of v k) (m key)

-- The rest of the loop, from what a validator leaves.
build-step :
    (v : Validator) (vs : List Validator) (m n : Map ValidatorStatus) (key : Bytes)
    (o : Option (Map ValidatorStatus))
    → step v m ≡ o
    → build vs o ≡ some n
    → ((m' : Map ValidatorStatus)
        → build vs (some m') ≡ some n
        → n key ≡ or_else (reported key vs) (m' key))
    → n key ≡ or_else (reported key (v ∷ vs)) (m key)
build-step v vs m n key none e h rest = elim (build-none vs n h) [ ]
build-step v vs m n key (some m') e h rest =
    rest m' h
    ∙ ap (or_else (reported key vs)) (
        added v m (same v.pubkey null_pubkey) (ltb (length v.pubkey) validator_pubkey_length) m' key
          e)
    ∙ sym (or_else_assoc (reported key vs) _ (m key))

build-reported :
    (vs : List Validator) (m n : Map ValidatorStatus) (key : Bytes)
    → build vs (some m) ≡ some n
    → n key ≡ or_else (reported key vs) (m key)
unfolding build
build-reported [] m n key h = let e : m ≡ n = cc in ap (λ f. f key) (sym e)
build-reported (v ∷ vs) m n key h =
    build-step v vs m n key (step v m) refl h (λ m' e. build-reported vs m' n key e)

-- What a reported map holds.
abbrev pub Reports : List Validator → Map ValidatorStatus → Type 0
Reports vs m =
    (key : Bytes) → m key ≡ (if same null_pubkey key then some empty_status else reported key vs)

or_else-none : (o : Option ValidatorStatus) → or_else o none ≡ o
or_else-none none = refl
or_else-none (some s) = refl

with_null-Reports :
    (vs : List Validator) (o : Option (Map ValidatorStatus)) (m : Map ValidatorStatus)
    → build vs (some empty_map) ≡ o
    → with_null o ≡ ok m
    → Reports vs m
with_null-Reports vs none m e h = cc
with_null-Reports vs (some n) m e h =
    let d : insert null_pubkey empty_status n ≡ m = cc in
    λ key.
      ap (λ f. f key) (sym d)
      ∙ ap (λ o. if same null_pubkey key then some empty_status else o)
          (build-reported vs empty_map n key e ∙ or_else-none (reported key vs))

built-Reports :
    (f : Fetched Validator) (m : Map ValidatorStatus)
    → built f ≡ ok m
    → (vs : List Validator) × (f ≡ fetched vs) × Reports vs m
built-Reports (fetched vs) m h =
    (vs, refl, with_null-Reports vs (build vs (some empty_map)) m refl h)
built-Reports (fetch_failed e) m h = cc
built-Reports crashed m h = cc

module _ (provider : StateId → List Bytes → Answer (List Validator)) (spec : Answer ℕ)
    (schedule : List Batch → List Batch) where
  -- The batches that request the keys, and the map of the provider's answers to them.
  abbrev pub IsReport :
      List Bytes → Option ValidatorStatusOptions → List Bytes → Map ValidatorStatus → Type 0
  IsReport pubkeys opts real m =
      let bs : List Batch =
        batches max_request_validators_count (map pubkey_hex_with_prefix real) in
      Requests [] pubkeys real
      × (requested bs ≡ map pubkey_hex_with_prefix real)
      × (st : StateId) × (state_id spec opts ≡ answered st)
      × Reports (joined (ask_provider provider st bs)) m

  -- Validators are fetched only for a state ID that is known.
  fetched-state_id :
      (opts : Option ValidatorStatusOptions) (ids : List Bytes) (vs : List Validator)
      (a : Answer StateId)
      → state_id spec opts ≡ a
      → get_validators_by_opts provider spec opts schedule ids ≡ fetched vs
      → (st : StateId) × (state_id spec opts ≡ answered st)
  unfolding get_validators_by_opts fetch
  fetched-state_id opts ids vs (answered st) h e = (st, h)
  fetched-state_id opts ids vs (failed x) h e = cc

  outcome-fetched :
      (e : Option String) (vs ws : List Validator) → outcome e vs ≡ fetched ws → ws ≡ vs
  outcome-fetched none vs ws h = cc
  outcome-fetched (some e) vs ws h = cc

  statuses_of-IsReport :
      (is_bls_key : Bytes → Bool) (pubkeys : List Bytes) (opts : Option ValidatorStatusOptions)
      (r : Result (List Bytes)) (m : Map ValidatorStatus)
      → IsBounded provider
      → ((bs : List Batch) → Reorders bs (schedule bs))
      → real_pubkeys is_bls_key [] pubkeys ≡ r
      → statuses_of provider spec schedule opts r ≡ ok m
      → (real : List Bytes) × IsReport pubkeys opts real m
  statuses_of-IsReport is_bls_key pubkeys opts (err e) m f q p h = cc
  statuses_of-IsReport is_bls_key pubkeys opts panic m f q p h = cc
  statuses_of-IsReport is_bls_key pubkeys opts (ok real) m f q p h =
      let ids : List Bytes = map pubkey_hex_with_prefix real in
      let (vs, e, r) = built-Reports _ m h in
      let (st, s) = fetched-state_id opts ids vs (state_id spec opts) refl e in
      let (a, g) = get_validators_by_opts-Reorders provider spec opts schedule ids st f (q _) s in
      (
        real,
        (
          real_pubkeys-Requests is_bls_key [] pubkeys real p,
          a,
          st,
          s,
          subst (λ xs. Reports xs m) (outcome-fetched _ _ vs (sym g ∙ e)) r,
        ),
      )

-- When the statuses of public keys are given, exactly the keys that are not null were requested, each
-- once, in batches that are finished in any order, and the map has under each key the status from the
-- last of the provider's answers to those batches with that key, with the null key apart, under which
-- there is always the empty status; if an answer never has more validators than its request has IDs.
pub get_validator_statuses-IsReport :
    (provider : StateId → List Bytes → Answer (List Validator)) (spec : Answer ℕ)
    (schedule : List Batch → List Batch) (is_bls_key : Bytes → Bool) (pubkeys : List Bytes)
    (opts : Option ValidatorStatusOptions) (m : Map ValidatorStatus)
    → IsBounded provider
    → ((bs : List Batch) → Reorders bs (schedule bs))
    → get_validator_statuses provider spec schedule is_bls_key pubkeys opts ≡ ok m
    → (real : List Bytes) × IsReport provider spec schedule pubkeys opts real m
unfolding get_validator_statuses
get_validator_statuses-IsReport provider spec schedule is_bls_key pubkeys opts m f q h =
    statuses_of-IsReport provider spec schedule is_bls_key pubkeys opts
      (real_pubkeys is_bls_key [] pubkeys) m f q refl h
