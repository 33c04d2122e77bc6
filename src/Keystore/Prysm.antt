-- ===== src/Keystore/Prysm.antt =====
-- The keystore with all keys in one file: node/validator/keystore/prysm.go.
use node_manager_core.Base.{
  Bool, true, false, Option, none, some, List, [], ◌∷◌, ◌++◌, if◌then◌else◌, ◌||◌, ◌==◌, length,
}
use node_manager_core.Utils.Hex.{Bytes, codes, same}
use node_manager_core.Keystore.Disk.{
  FilePath, AccountStore, default_cipher, KeyLibrary, Method, Result, ok, err, panic, pure, fail,
  ◌>>=◌, ◌>>◌, or_error, fresh, Stat, not_exist, failed, exists, stat, read, write, make_folder,
}

abbrev pub prysm_dir : Bytes
prysm_dir = codes "prysm-non-hd"

abbrev pub password_path : FilePath
password_path = (prysm_dir, codes "direct", codes "accounts/secret")

abbrev pub keystore_path : FilePath
keystore_path = (prysm_dir, codes "direct", codes "accounts/all-accounts.keystore.json")

abbrev pub config_path : FilePath
config_path = (prysm_dir, codes "direct", codes "keymanageropts.json")

abbrev pub direct_eip_version : Bytes
direct_eip_version = codes "EIP-2335"

unfoldable pub set_accounts : AccountStore → Method (Unit {0})
set_accounts s w = (ok tt, record w { accounts = some s })

abbrev pub if_missing : Method (Unit {0}) → Stat → Method (Unit {0})
if_missing m not_exist = m
if_missing m failed = pure tt
if_missing m exists = pure tt

abbrev pub given : {A : Type 0} → (AccountStore → Method A) → Option AccountStore → Method A
given f none w = (panic, w)
given f (some s) w = f s w

-- What the loops do with the store that `initialize` has set.
abbrev pub with_accounts : {A : Type 0} → (AccountStore → Method A) → Method A
with_accounts f w = given f w.accounts w

abbrev pub tell : Bool → Result Bool → Result Bool
tell true r = ok true
tell false r = r

-- Whether a key is in the store; a public key that is missing at its index panics.
unfoldable pub contains : Bytes → Bytes → List Bytes → List Bytes → Result Bool
contains private public [] keys = ok false
contains private public (p ∷ ps) [] = tell (same private p) panic
contains private public (p ∷ ps) (k ∷ ks) =
    tell (same private p || same public k) (contains private public ps ks)

-- The private key at the index of a public key.
unfoldable pub find_key : Bytes → List Bytes → List Bytes → Result (Option Bytes)
find_key key [] keys = ok none
find_key key (p ∷ ps) [] = panic
find_key key (p ∷ ps) (k ∷ ks) =
    let rest = find_key key ps ks in if same key k then ok (some p) else rest

module _ (lib : KeyLibrary) where
  -- A new password, where no file holds one.
  unfoldable pub create_password : Method (Unit {0})
  create_password = do
    seed ← fresh
    password ← or_error "error generating random password" (lib.random_password seed)
    make_folder "error creating account password directory" password_path
    write "error writing account password file" password_path password

  unfoldable pub keep_accounts : AccountStore → Method (Unit {0})
  unfolding set_accounts
  keep_accounts s =
      if length s.private_keys == length s.public_keys
      then set_accounts s
      else fail "validator account store private and public key counts do not match"

  -- An account store that cannot be read counts as empty.
  unfoldable pub decode_accounts : Bytes → Option Bytes → Method (Unit {0})
  unfolding keep_accounts set_accounts
  decode_accounts password none = set_accounts (record { private_keys = []; public_keys = [] })
  decode_accounts password (some bytes) = do
    keystore ← or_error "error decoding validator keystore" (lib.unmarshal_prysm bytes)
    text ←
        or_error "error decrypting validator account store" (lib.decrypt keystore.crypto password)
    s ← or_error "error decoding validator account store" (lib.unmarshal_accounts text)
    keep_accounts s

  unfoldable pub read_accounts : Method (Unit {0})
  unfolding create_password decode_accounts
  read_accounts = do
    there ← stat password_path
    if_missing create_password there
    found ← read password_path
    password ← or_error "error opening account password file" found
    bytes ← read keystore_path
    decode_accounts password bytes

  unfoldable pub initialize_from : Option AccountStore → Method (Unit {0})
  unfolding read_accounts
  initialize_from none = read_accounts
  initialize_from (some s) = pure tt

  -- The account store is read once.
  unfoldable pub initialize : Method (Unit {0})
  unfolding initialize_from
  initialize w = initialize_from w.accounts w

  unfoldable pub write_config : Stat → Method (Unit {0})
  write_config not_exist = do
    bytes ← or_error "error encoding wallet config" (lib.marshal_config direct_eip_version)
    write "error writing wallet config to disk" config_path bytes
  write_config failed = pure tt
  write_config exists = pure tt

  unfoldable pub save_accounts : AccountStore → Method (Unit {0})
  unfolding write_config
  save_accounts s = do
    text ← or_error "error encoding validator account store" (lib.marshal_accounts s)
    found ← read password_path
    password ← or_error "error reading account password file" found
    salt ← fresh
    crypto ←
        or_error "error encrypting validator account store"
          (lib.encrypt default_cipher salt text password)
    id ← fresh
    bytes ← or_error "error encoding validator keystore" (
        lib.marshal_prysm (record {
          crypto = crypto;
          name = lib.encryptor_name;
          version = lib.encryptor_version;
          uuid = lib.new_uuid id;
          path = [];
          pubkey = [];
        }))
    make_folder "error creating keystore folder" keystore_path
    write "error writing keystore to disk" keystore_path bytes
    there ← stat config_path
    write_config there

  abbrev pub with_key : lib.Key → AccountStore → AccountStore
  with_key key s = record {
    private_keys = s.private_keys ++ (lib.marshal_key key ∷ []);
    public_keys = s.public_keys ++ (lib.public_key key ∷ []);
  }

  -- The new key stays in the account store in memory also where saving it fails.
  unfoldable pub add_key : lib.Key → AccountStore → Result Bool → Method (Unit {0})
  unfolding set_accounts save_accounts
  add_key key s panic w = (panic, w)
  add_key key s (err e) w = (err e, w)
  add_key key s (ok true) w = (ok tt, w)
  add_key key s (ok false) w = (set_accounts (with_key key s) >> save_accounts (with_key key s)) w

  unfoldable pub add_if_new : lib.Key → AccountStore → Method (Unit {0})
  unfolding add_key contains
  add_if_new key s =
      add_key key s
        (contains (lib.marshal_key key) (lib.public_key key) s.private_keys s.public_keys)

  unfoldable pub store_validator_key : lib.Key → Bytes → Method (Unit {0})
  unfolding initialize add_if_new
  store_validator_key key path = initialize >> with_accounts (add_if_new key)

  unfoldable pub checked_key : Bytes → lib.Key → Method (Option lib.Key)
  checked_key key k =
      if same (lib.public_key k) key
      then pure (some k)
      else fail "prysm's keystore has a key that claims to be for another validator"

  unfoldable pub verified_key : Bytes → Bytes → Method (Option lib.Key)
  unfolding checked_key
  verified_key key private = do
    k ← or_error "error recreating private key" (lib.key_from_bytes private)
    checked_key key k

  unfoldable pub verify_found : Bytes → Result (Option Bytes) → Method (Option lib.Key)
  unfolding verified_key
  verify_found key panic w = (panic, w)
  verify_found key (err e) w = (err e, w)
  verify_found key (ok none) w = (ok none, w)
  verify_found key (ok (some private)) w = verified_key key private w

  unfoldable pub load_validator_key : Bytes → Method (Option lib.Key)
  unfolding initialize verify_found find_key
  load_validator_key key =
      initialize
      >> with_accounts (λ s. verify_found key (find_key key s.private_keys s.public_keys))
