-- ===== src/Tests/Keystore.antt =====
-- Concrete runs of the validator keystores.
use node_manager_core.Base.{
  ◌≡◌, refl, ap, sym, ◌∙◌, false, Option, none, some, List, [], ◌∷◌, ◌++◌, length, take, drop,
}
use node_manager_core.Base.Reorders.{here, nothing, put}
use node_manager_core.Base.Reorders
use node_manager_core.Utils.Hex.{Bytes, codes}
use node_manager_core.Keystore.Disk.{
  FilePath, Disk, Call, ValidatorKeystore, PrysmKeystore, AccountStore, Encryptor, KeyLibrary,
  IsFaithful, Keystores, ok,
}
use node_manager_core.Keystore.Direct.{Layout, lighthouse, lodestar, nimbus, teku}
use node_manager_core.Keystore.Disk
use node_manager_core.Keystore.Direct
use node_manager_core.Keystore.Prysm
use node_manager_core.Keystore.Manager.{
  Client, direct, prysm, keystore_managers, store_key, load_key,
}
use node_manager_core.Keystore.Frames.{IsBalanced}
use node_manager_core.Keystore.Stored.{IsReadable}
use node_manager_core.Keystore.Keys.{Allows}
use node_manager_core.Keystore.Clients.{load_key-Allows}
use node_manager_core.Keystore.RoundTrip.{load_key-store_key}

take-own : (xs ys : Bytes) → take (length xs) (xs ++ ys) ≡ xs
take-own [] ys = refl
take-own (x ∷ xs) ys = ap (λ zs. x ∷ zs) (take-own xs ys)

drop-own : (xs ys : Bytes) → drop (length xs) (xs ++ ys) ≡ ys
drop-own [] ys = refl
drop-own (x ∷ xs) ys = drop-own xs ys

abbrev packed : ValidatorKeystore → Bytes
packed k =
    k.version
    ∷ k.uuid
    ∷ length k.crypto
    ∷ length k.path
    ∷ length k.name
    ∷ (k.crypto ++ (k.path ++ (k.name ++ k.pubkey)))

abbrev unpacked : Bytes → Option ValidatorKeystore
unpacked (v ∷ u ∷ n ∷ m ∷ l ∷ rest) = some (record {
  crypto = take n rest;
  name = take l (drop m (drop n rest));
  version = v;
  uuid = u;
  path = take m (drop n rest);
  pubkey = drop l (drop m (drop n rest));
})
unpacked b = none

-- Keys are their own public keys; the cipher text begins with the password's first byte.
abbrev toy_library : KeyLibrary
toy_library = record {
  Key = Bytes;
  public_key = λ k. k;
  marshal_key = λ k. k;
  key_from_bytes = some;
  random_password = λ n. some (n ∷ []);
  encrypt = λ e salt text password. some (salt ∷ text);
  decrypt = λ crypto password. some (drop 1 crypto);
  encryptor_name = codes "keystore";
  encryptor_version = 4;
  new_uuid = λ n. n;
  marshal_keystore = λ k. some (packed k);
  unmarshal_keystore = unpacked;
  marshal_prysm = λ k. some k.crypto;
  unmarshal_prysm = λ b. none;
  marshal_accounts = λ s. some [];
  unmarshal_accounts = λ b. none;
  marshal_config = some;
}

packed-unpacked : (k : ValidatorKeystore) → unpacked (packed k) ≡ some k
packed-unpacked k =
    let last = k.name ++ k.pubkey in
    let rest = k.path ++ last in
    rw
      (
        take-own k.crypto rest,
        drop-own k.crypto rest,
        take-own k.path last,
        drop-own k.path last,
        take-own k.name k.pubkey,
        drop-own k.name k.pubkey,
      )
      refl

toy_library-IsFaithful : IsFaithful toy_library
toy_library-IsFaithful = record {
  decrypt-encrypt = λ e salt text password crypto h.
      let k : salt ∷ text ≡ crypto = cc in ap (λ c. some (drop 1 c)) (sym k);
  unmarshal-marshal = λ k b h. let e : packed k ≡ b = cc in ap unpacked (sym e) ∙ packed-unpacked k;
  key_from_bytes-marshal_key = λ k. refl;
}

abbrev empty_disk : Keystores
empty_disk = record {
  disk = record { content = λ p. none; is_refused = λ c p. false; left_behind = λ p. none };
  accounts = none;
  entropy = 1;
}

empty_disk-IsBalanced : IsBalanced empty_disk
empty_disk-IsBalanced s h = cc

abbrev stored : Keystores
stored = (store_key toy_library keystore_managers (7 ∷ []) (codes "m/0") empty_disk).1

store_runs :
    store_key toy_library keystore_managers (7 ∷ []) (codes "m/0") empty_disk ≡ (ok tt, stored)
unfolding store_key Disk.◌>>=◌ Direct.store_validator_key Disk.fresh Direct.write_files
    Disk.make_folder Disk.write Prysm.store_validator_key Disk.stat Disk.read
store_runs = refl

stored-IsReadable : IsReadable lighthouse (7 ∷ []) stored
unfolding store_key Disk.◌>>=◌ Direct.store_validator_key Disk.fresh Direct.write_files
    Disk.make_folder Disk.write Prysm.store_validator_key Disk.stat Disk.read
stored-IsReadable = record {
  secret_stat = refl;
  secret_read = refl;
  key_stat = refl;
  key_read = refl;
}

same_order : (xs : List Client) → Reorders.Reorders xs xs
same_order [] = nothing
same_order (x ∷ xs) = put x xs xs (x ∷ xs) (same_order xs) (here xs)

load_key-store_key_example :
    (k' : Bytes) × (v : Keystores) × (load_key toy_library keystore_managers (7 ∷ []) stored
      ≡ (ok k', v))
    × (k' ≡ 7 ∷ [])
load_key-store_key_example =
    load_key-store_key toy_library lighthouse
      (direct lodestar ∷ direct nimbus ∷ prysm ∷ direct teku ∷ []) keystore_managers
      keystore_managers (7 ∷ []) (codes "m/0") empty_disk stored toy_library-IsFaithful (here _)
      (same_order keystore_managers) (same_order keystore_managers) empty_disk-IsBalanced store_runs
      stored-IsReadable

load_key-Allows_example :
    Allows (λ k. k ≡ 7 ∷ []) (load_key toy_library keystore_managers (7 ∷ []) empty_disk).0
load_key-Allows_example =
    load_key-Allows toy_library keystore_managers (7 ∷ []) empty_disk empty_disk-IsBalanced
