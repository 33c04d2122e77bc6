-- ===== src/Keystore/Direct.antt =====
-- The keystores with one file for each key: node/validator/keystore/lighthouse.go, lodestar.go, nimbus.go
-- and teku.go.
use node_manager_core.Base.{Option, none, some, [], ◌++◌, if◌then◌else◌}
use node_manager_core.Utils.Hex.{Bytes, codes, same, pubkey_hex_with_prefix}
use node_manager_core.Keystore.Disk.{
  FilePath, ValidatorKeystore, Encryptor, default_cipher, scrypt, KeyLibrary, Method, pure, fail,
  ◌>>=◌, ◌>>◌, or_error, fresh, Stat, not_exist, failed, exists, stat, read, write, make_folder,
}

-- What tells the four managers apart.
pub record Layout : Type 0 where
  pub encryptor : Encryptor
  pub keystore_dir : Bytes
  pub validators_dir : Bytes
  pub secrets_dir : Bytes
  pub key_file : Bytes → Bytes
  pub secret_file : Bytes → Bytes

-- The path of a key's folder and of the file in it.
abbrev in_folder : Bytes → Bytes → Bytes
in_folder name key = pubkey_hex_with_prefix key ++ codes "/" ++ name

abbrev pub lighthouse : Layout
lighthouse = record {
  encryptor = scrypt;
  keystore_dir = codes "lighthouse";
  validators_dir = codes "validators";
  secrets_dir = codes "secrets";
  key_file = in_folder (codes "voting-keystore.json");
  secret_file = pubkey_hex_with_prefix;
}

abbrev pub lodestar : Layout
lodestar = record {
  encryptor = scrypt;
  keystore_dir = codes "lodestar";
  validators_dir = codes "validators";
  secrets_dir = codes "secrets";
  key_file = in_folder (codes "voting-keystore.json");
  secret_file = pubkey_hex_with_prefix;
}

abbrev pub nimbus : Layout
nimbus = record {
  encryptor = default_cipher;
  keystore_dir = codes "nimbus";
  validators_dir = codes "validators";
  secrets_dir = codes "secrets";
  key_file = in_folder (codes "keystore.json");
  secret_file = pubkey_hex_with_prefix;
}

abbrev pub teku : Layout
teku = record {
  encryptor = scrypt;
  keystore_dir = codes "teku";
  validators_dir = codes "keys";
  secrets_dir = codes "passwords";
  key_file = λ key. pubkey_hex_with_prefix key ++ codes ".json";
  secret_file = λ key. pubkey_hex_with_prefix key ++ codes ".txt";
}

unfoldable pub secret_path : Layout → Bytes → FilePath
secret_path l key = (l.keystore_dir, l.secrets_dir, l.secret_file key)

unfoldable pub key_path : Layout → Bytes → FilePath
key_path l key = (l.keystore_dir, l.validators_dir, l.key_file key)

module _ (lib : KeyLibrary) where
  unfoldable pub write_files : Layout → Bytes → Bytes → Bytes → Method (Unit {0})
  unfolding secret_path key_path
  write_files l key password bytes = do
    make_folder "error creating validator secrets folder" (secret_path l key)
    write "error writing validator secret to disk" (secret_path l key) password
    make_folder "error creating validator key folder" (key_path l key)
    write "error writing validator key to disk" (key_path l key) bytes

  unfoldable pub store_validator_key : Layout → lib.Key → Bytes → Method (Unit {0})
  store_validator_key l key path = do
    seed ← fresh
    password ← or_error "error generating random password" (lib.random_password seed)
    salt ← fresh
    crypto ←
        or_error "error encrypting validator key"
          (lib.encrypt l.encryptor salt (lib.marshal_key key) password)
    id ← fresh
    bytes ← or_error "error encoding validator key" (
        lib.marshal_keystore (record {
          crypto = crypto;
          name = [];
          version = lib.encryptor_version;
          uuid = lib.new_uuid id;
          path = path;
          pubkey = lib.public_key key;
        }))
    write_files l (lib.public_key key) password bytes

  unfoldable pub read_existing : FilePath → Stat → Method (Option Bytes)
  read_existing p not_exist = pure none
  read_existing p failed = fail "couldn't open the keystore"
  read_existing p exists = do
    found ← read p
    bytes ← or_error "couldn't read the keystore" found
    pure (some bytes)

  -- A file that is not there ends the load without a key and without an error.
  unfoldable pub read_if_there : FilePath → Method (Option Bytes)
  unfolding read_existing
  read_if_there p = stat p >>= read_existing p

  unfoldable pub verified_key : Bytes → lib.Key → Method (Option lib.Key)
  verified_key key k =
      if same (lib.public_key k) key
      then pure (some k)
      else fail "private keystore file claims to be for another validator"

  unfoldable pub open_keystore : Bytes → ValidatorKeystore → Option Bytes → Method (Option lib.Key)
  unfolding verified_key
  open_keystore key keystore none = pure none
  open_keystore key keystore (some password) = do
    text ← or_error "couldn't decrypt keystore" (lib.decrypt keystore.crypto password)
    k ← or_error "error recreating private key" (lib.key_from_bytes text)
    verified_key key k

  unfoldable pub with_keystore : Layout → Bytes → Option Bytes → Method (Option lib.Key)
  unfolding read_if_there open_keystore secret_path
  with_keystore l key none = pure none
  with_keystore l key (some bytes) = do
    keystore ← or_error "error deserializing keystore" (lib.unmarshal_keystore bytes)
    secret ← read_if_there (secret_path l key)
    open_keystore key keystore secret

  unfoldable pub load_validator_key : Layout → Bytes → Method (Option lib.Key)
  unfolding with_keystore read_if_there key_path
  load_validator_key l key = read_if_there (key_path l key) >>= with_keystore l key

  -- Lighthouse's methods.
  abbrev pub store_lighthouse_key : lib.Key → Bytes → Method (Unit {0})
  store_lighthouse_key = store_validator_key lighthouse

  abbrev pub load_lighthouse_key : Bytes → Method (Option lib.Key)
  load_lighthouse_key = load_validator_key lighthouse

  -- Lodestar's methods.
  abbrev pub store_lodestar_key : lib.Key → Bytes → Method (Unit {0})
  store_lodestar_key = store_validator_key lodestar

  abbrev pub load_lodestar_key : Bytes → Method (Option lib.Key)
  load_lodestar_key = load_validator_key lodestar

  -- Nimbus's methods.
  abbrev pub store_nimbus_key : lib.Key → Bytes → Method (Unit {0})
  store_nimbus_key = store_validator_key nimbus

  abbrev pub load_nimbus_key : Bytes → Method (Option lib.Key)
  load_nimbus_key = load_validator_key nimbus

  -- Teku's methods.
  abbrev pub store_teku_key : lib.Key → Bytes → Method (Unit {0})
  store_teku_key = store_validator_key teku

  abbrev pub load_teku_key : Bytes → Method (Option lib.Key)
  load_teku_key = load_validator_key teku
