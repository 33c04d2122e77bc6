-- ===== src/Keystore/Frames/Methods.antt =====
-- Each method of the keystore managers of node/validator/keystore stays inside its manager's directory.
use node_manager_core.Base.{◌≡◌, refl, true, Option, none, some, Bool-cases, inl, inr}
use node_manager_core.Utils.Hex.{Bytes, same}
use node_manager_core.Utils.Hex.RoundTrip.{same_iff}
use node_manager_core.Keystore.Disk.{
  FilePath, ValidatorKeystore, KeyLibrary, Stat, not_exist, failed, exists,
}
use node_manager_core.Keystore.Direct.{Layout, secret_path, key_path}
use node_manager_core.Keystore.Direct
use node_manager_core.Keystore.Frames.{Stays, stays_rules}

module _ (lib : KeyLibrary) where
  own : (dir : Bytes) → same dir dir ≡ true
  own dir = (same_iff dir dir).1 refl

  write_files-Stays :
      (l : Layout) (key password bytes : Bytes)
      → Stays l.keystore_dir (Direct.write_files lib l key password bytes)
  unfolding Direct.write_files secret_path key_path
  write_files-Stays l key password bytes = search (stays_rules, own l.keystore_dir)

  pub direct_store-Stays :
      (l : Layout) (key : lib.Key) (path : Bytes)
      → Stays l.keystore_dir (Direct.store_validator_key lib l key path)
  unfolding Direct.store_validator_key
  direct_store-Stays l key path = search (stays_rules, write_files-Stays) depth 14

  read_existing-Stays :
      (dir : Bytes) (p : FilePath) (s : Stat) → Stays dir (Direct.read_existing lib p s)
  unfolding Direct.read_existing
  read_existing-Stays dir p not_exist = search stays_rules
  read_existing-Stays dir p failed = search stays_rules
  read_existing-Stays dir p exists = search stays_rules depth 8

  read_if_there-Stays : (dir : Bytes) (p : FilePath) → Stays dir (Direct.read_if_there lib p)
  unfolding Direct.read_if_there
  read_if_there-Stays dir p = search (stays_rules, read_existing-Stays)

  verified_key-Stays : (dir key : Bytes) (k : lib.Key) → Stays dir (Direct.verified_key lib key k)
  unfolding Direct.verified_key
  verified_key-Stays dir key k = elim (Bool-cases (same (lib.public_key k) key)) [
    | inl e ↦ rw e (search stays_rules)
    | inr e ↦ rw e (search stays_rules)
  ]

  open_keystore-Stays :
      (dir key : Bytes) (store : ValidatorKeystore) (secret : Option Bytes)
      → Stays dir (Direct.open_keystore lib key store secret)
  unfolding Direct.open_keystore
  open_keystore-Stays dir key store none = search stays_rules
  open_keystore-Stays dir key store (some password) =
      search (stays_rules, verified_key-Stays) depth 8

  with_keystore-Stays :
      (dir : Bytes) (l : Layout) (key : Bytes) (o : Option Bytes)
      → Stays dir (Direct.with_keystore lib l key o)
  unfolding Direct.with_keystore
  with_keystore-Stays dir l key none = search stays_rules
  with_keystore-Stays dir l key (some bytes) =
      search (stays_rules, read_if_there-Stays, open_keystore-Stays) depth 8

  pub direct_load-Stays :
      (dir : Bytes) (l : Layout) (key : Bytes) → Stays dir (Direct.load_validator_key lib l key)
  unfolding Direct.load_validator_key
  direct_load-Stays dir l key =
      search (stays_rules, read_if_there-Stays, with_keystore-Stays) depth 8
