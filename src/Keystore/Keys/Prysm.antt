-- ===== src/Keystore/Keys/Prysm.antt =====
-- What loading a key from the keystore of node/validator/keystore/prysm.go can give.
use node_manager_core.Base.{
  String, ◌≡◌, refl, Option, none, some, List, [], ◌∷◌, arith, length, ◌==◌, Bool-cases, inl, inr,
}
use node_manager_core.Utils.Hex.{Bytes, same}
use node_manager_core.Utils.Hex.RoundTrip.{same_iff}
use node_manager_core.Keystore.Disk.{
  AccountStore, KeyLibrary, Keystores, Method, Result, ok, err, panic, fresh, write, make_folder,
  next, Stat, not_exist, failed, exists, ◌>>=◌, fail, FilePath, mkdir_call, write_call,
}
use node_manager_core.Keystore.Prysm.{
  set_accounts, create_password, keep_accounts, decode_accounts, if_missing, read_accounts,
  initialize, initialize_from, given, with_accounts, checked_key, verified_key, find_key,
  verify_found, load_validator_key,
}
use node_manager_core.Keystore.Frames.{IsBalanced}
use node_manager_core.Keystore.Frames.Prysm.{initialize-Within}
use node_manager_core.Keystore.Keys.{Allows, Gives, Any, Gives-pure, Gives-fail, Has, gives_rules}

-- No panic, and an account store is there when the method succeeds.
HasAccounts : Result (Unit {0}) × Keystores → Type 0
HasAccounts (ok a, v) = (s : AccountStore) × (v.accounts ≡ some s)
HasAccounts (err e, v) = Unit
HasAccounts (panic, v) = ⊥

record Sets (m : Method (Unit {0})) : Type 0 where
  at : (w : Keystores) → HasAccounts (m w)

HasAccounts-next :
    {A : Type 0} (f : A → Method (Unit {0})) (r : Result A × Keystores)
    → Allows Any r.0
    → ((a : A) → Sets (f a))
    → HasAccounts (next f r)
unfolding HasAccounts
HasAccounts-next f (ok a, v) h k = (k a).at v
HasAccounts-next f (err e, v) h k = tt
HasAccounts-next f (panic, v) h k = h

Sets-bind :
    {A : Type 0} (m : Method A) (f : A → Method (Unit {0}))
    → Gives Any m
    → ((a : A) → Sets (f a))
    → Sets (m >>= f)
unfolding ◌>>=◌
Sets-bind m f h k = record { at = λ w. HasAccounts-next f (m w) (h.at w) k }

Sets-fail : (e : String) → Sets (fail e)
unfolding HasAccounts
Sets-fail e = record { at = λ w. tt }

Sets-set_accounts : (s : AccountStore) → Sets (set_accounts s)
unfolding HasAccounts set_accounts
Sets-set_accounts s = record { at = λ w. (s, refl) }

Gives-fresh : Gives Any fresh
unfolding fresh
Gives-fresh = record { at = λ w. tt }

Gives-make_folder : (e : String) (p : FilePath) → Gives Any (make_folder e p)
unfolding make_folder
Gives-make_folder e p = record {
  at =
      λ w. elim (Bool-cases (w.disk.is_refused mkdir_call p)) [ inl h ↦ rw h tt | inr h ↦ rw h tt ];
}

Gives-write : (e : String) (p : FilePath) (b : Bytes) → Gives Any (write e p b)
unfolding write
Gives-write e p b = record {
  at =
      λ w. elim (Bool-cases (w.disk.is_refused write_call p)) [ inl h ↦ rw h tt | inr h ↦ rw h tt ];
}

find_key-Allows :
    (key : Bytes) (ps ks : List Bytes) → length ps ≡ length ks → Allows Any (find_key key ps ks)
unfolding find_key
find_key-Allows key [] ks h = tt
find_key-Allows key (p ∷ ps) [] h = omega (arith, h)
find_key-Allows key (p ∷ ps) (k ∷ ks) h =
    let rest = find_key-Allows key ps ks (omega (arith, h)) in
    elim (Bool-cases (same key k)) [ inl e ↦ rw e tt | inr e ↦ rw e rest ]

module _ (lib : KeyLibrary) where
  create_password-Gives : Gives Any (create_password lib)
  unfolding create_password
  create_password-Gives = search (gives_rules, Gives-fresh, Gives-make_folder, Gives-write) depth 10

  if_missing-Gives : (s : Stat) → Gives Any (if_missing (create_password lib) s)
  if_missing-Gives not_exist = create_password-Gives
  if_missing-Gives failed = search gives_rules
  if_missing-Gives exists = search gives_rules

  keep_accounts-Sets : (s : AccountStore) → Sets (keep_accounts lib s)
  unfolding keep_accounts
  keep_accounts-Sets s = elim (Bool-cases (length s.private_keys == length s.public_keys)) [
    | inl e ↦ rw e (Sets-set_accounts s)
    | inr e ↦ rw e (Sets-fail _)
  ]

  decode_accounts-Sets :
      (password : Bytes) (o : Option Bytes) → Sets (decode_accounts lib password o)
  unfolding decode_accounts
  decode_accounts-Sets password none = Sets-set_accounts _
  decode_accounts-Sets password (some bytes) =
      search (gives_rules, Sets-bind, keep_accounts-Sets) depth 10

  initialize_from-Sets :
      (o : Option AccountStore) (w : Keystores)
      → w.accounts ≡ o
      → HasAccounts (initialize_from lib o w)
  unfolding initialize_from HasAccounts read_accounts
  initialize_from-Sets none w h =
      let r : Sets (read_accounts lib) =
        search (gives_rules, Sets-bind, if_missing-Gives, decode_accounts-Sets) depth 12 in
      r.at w
  initialize_from-Sets (some s) w h = (s, h)

  checked_key-Gives : (key : Bytes) (k : lib.Key) → Gives (Has lib key) (checked_key lib key k)
  unfolding checked_key
  checked_key-Gives key k = elim (Bool-cases (same (lib.public_key k) key)) [
    | inl e ↦ rw e (Gives-pure (Has lib key) (some k) ((same_iff (lib.public_key k) key).0 e))
    | inr e ↦ rw e (Gives-fail (Has lib key) _)
  ]

  verify_found-Gives :
      (key : Bytes) (r : Result (Option Bytes))
      → Allows Any r
      → Gives (Has lib key) (verify_found lib key r)
  unfolding verify_found verified_key
  verify_found-Gives key panic h = elim h [ ]
  verify_found-Gives key (err e) h = record { at = λ w. tt }
  verify_found-Gives key (ok none) h = record { at = λ w. tt }
  verify_found-Gives key (ok (some private)) h = search (gives_rules, checked_key-Gives) depth 8

  given-Allows :
      (key : Bytes) (o : Option AccountStore) (s : AccountStore) (v : Keystores)
      → o ≡ some s
      → length s.private_keys ≡ length s.public_keys
      → Allows
          (Has lib key)
          (given (λ t. verify_found lib key (find_key key t.private_keys t.public_keys)) o v).0
  given-Allows key o s v e h = rw e (
      (verify_found-Gives key (find_key key s.private_keys s.public_keys)
          (find_key-Allows key s.private_keys s.public_keys h)).at
        v)

  after :
      (key : Bytes) (r : Result (Unit {0}) × Keystores)
      → HasAccounts r
      → IsBalanced r.1
      → Allows
          (Has lib key)
          (next
            (λ x.
              with_accounts (λ t. verify_found lib key (find_key key t.private_keys t.public_keys)))
            r).0
  unfolding HasAccounts
  after key (ok a, v) (s, e) b = given-Allows key v.accounts s v e (b s e)
  after key (err e, v) h b = tt
  after key (panic, v) h b = h

  pub prysm_load-Allows :
      (key : Bytes) (w : Keystores)
      → IsBalanced w
      → Allows (Has lib key) (load_validator_key lib key w).0
  unfolding load_validator_key ◌>>=◌ initialize
  prysm_load-Allows key w b =
      after key (initialize lib w) (initialize_from-Sets w.accounts w refl)
        ((initialize-Within lib).at w b).balanced
