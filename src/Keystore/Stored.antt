-- ===== src/Keystore/Stored.antt =====
-- A key that one of lighthouse.go, lodestar.go, nimbus.go and teku.go has stored can be loaded.
use node_manager_core.Base.{
  ◌≡◌, refl, ap, ◌∙◌, subst, String, true, false, Option, none, some, [], arith, if◌then◌else◌,
}
use node_manager_core.Utils.Hex.{Bytes, same}
use node_manager_core.Utils.Hex.RoundTrip.{same_iff}
use node_manager_core.Keystore.Disk.{
  FilePath, same_path, stat_call, read_call, ValidatorKeystore, KeyLibrary, IsFaithful, Keystores,
  Method, Result, ok, err, panic, pure, next, ◌>>=◌, or_error, fresh, stat, read, write,
  make_folder, put, failed, exists, presence,
}
use node_manager_core.Keystore.Direct.{
  Layout, secret_path, key_path, write_files, store_validator_key, load_validator_key,
  read_if_there, read_existing, verified_key, open_keystore, with_keystore,
}

pub next-ok :
    {A B : Type 0} (f : A → Method B) (r : Result A × Keystores) (w' : Keystores) {b : B}
    → next f r ≡ (ok b, w')
    → (a : A) × (v : Keystores) × (r ≡ (ok a, v)) × (f a v ≡ (ok b, w'))
next-ok f (ok a, v) w' h = (a, v, refl, h)
next-ok f (err e, v) w' h = cc
next-ok f (panic, v) w' h = cc

pub >>=-ok :
    {A B : Type 0} (m : Method A) (f : A → Method B) (w w' : Keystores) {b : B}
    → (m >>= f) w ≡ (ok b, w')
    → (a : A) × (v : Keystores) × (m w ≡ (ok a, v)) × (f a v ≡ (ok b, w'))
unfolding ◌>>=◌
>>=-ok m f w w' h = next-ok f (m w) w' h

pub or_error-ok :
    {A : Type 0} (e : String) (o : Option A) (w v : Keystores) (a : A)
    → or_error e o w ≡ (ok a, v)
    → (o ≡ some a) × (w ≡ v)
or_error-ok e none w v a h = cc
or_error-ok e (some x) w v a h = (cc, cc)

make_folder-ok :
    (e : String) (p : FilePath) (w v : Keystores) (a : Unit {0})
    → make_folder e p w ≡ (ok a, v)
    → w ≡ v
unfolding make_folder
make_folder-ok e p w v a h = ground (arith, h)

write-ok :
    (e : String) (p : FilePath) (b : Bytes) (w v : Keystores) (a : Unit {0})
    → write e p b w ≡ (ok a, v)
    → put p b w ≡ v
unfolding write
write-ok e p b w v a h = ground (arith, h)

same_path_self : (p : FilePath) → same_path p p ≡ true
same_path_self p = ground (arith, same_iff p.0 p.0, same_iff p.1 p.1, same_iff p.2 p.2)

content-put : (p : FilePath) (b : Bytes) (w : Keystores) → (put p b w).disk.content p ≡ some b
content-put p b w = ap (λ x. if x then some b else w.disk.content p) (same_path_self p)

content-put_other :
    (p q : FilePath) (b : Bytes) (w : Keystores)
    → same_path p q ≡ false
    → (put p b w).disk.content q ≡ w.disk.content q
content-put_other p q b w h = ap (λ x. if x then some b else w.disk.content q) h

-- The files of a key, from which it is loaded.
pub record Stored (lib : KeyLibrary) (l : Layout) (k : lib.Key) (w : Keystores) : Type 0 where
  pub password : Bytes
  pub bytes : Bytes
  pub text : Bytes
  pub keystore : ValidatorKeystore
  pub secret : w.disk.content (secret_path l (lib.public_key k)) ≡ some password
  pub file : w.disk.content (key_path l (lib.public_key k)) ≡ some bytes
  pub parsed : lib.unmarshal_keystore bytes ≡ some keystore
  pub opened : lib.decrypt keystore.crypto password ≡ some text
  pub key : lib.key_from_bytes text ≡ some k

paths_differ :
    (l : Layout) (key : Bytes)
    → same l.secrets_dir l.validators_dir ≡ false
    → same_path (key_path l key) (secret_path l key) ≡ false
unfolding secret_path key_path
paths_differ l key d =
    ground
      (arith, d, same_iff l.secrets_dir l.validators_dir, same_iff l.validators_dir l.secrets_dir)

write_files-ok :
    (lib : KeyLibrary) (l : Layout) (key password bytes : Bytes) (w w' : Keystores)
    → same l.secrets_dir l.validators_dir ≡ false
    → write_files lib l key password bytes w ≡ (ok tt, w')
    → (w'.disk.content (secret_path l key) ≡ some password)
      × (w'.disk.content (key_path l key) ≡ some bytes)
unfolding write_files
write_files-ok lib l key password bytes w w' d h =
    let (_, a, p, h1) =
      >>=-ok (make_folder "error creating validator secrets folder" (secret_path l key)) _ w w' h in
    let (_, b, q, h2) =
      >>=-ok (write "error writing validator secret to disk" (secret_path l key) password) _ a w'
        h1 in
    let (_, c, r, h3) =
      >>=-ok (make_folder "error creating validator key folder" (key_path l key)) _ b w' h2 in
    let e : put (key_path l key) bytes (put (secret_path l key) password w) ≡ w' =
      ap (λ v. put (key_path l key) bytes (put (secret_path l key) password v))
        (make_folder-ok _ _ w a _ p)
      ∙ ap (put (key_path l key) bytes) (write-ok _ _ password a b _ q)
      ∙ ap (put (key_path l key) bytes) (make_folder-ok _ _ b c _ r)
      ∙ write-ok _ _ bytes c w' _ h3 in
    subst
      (λ v.
        (v.disk.content (secret_path l key) ≡ some password)
        × (v.disk.content (key_path l key) ≡ some bytes))
      e
      (
        content-put_other (key_path l key) (secret_path l key) bytes
              (put (secret_path l key) password w) (paths_differ l key d)
            ∙ content-put (secret_path l key) password w,
        content-put (key_path l key) bytes (put (secret_path l key) password w),
      )

pub store_validator_key-Stored :
    (lib : KeyLibrary) (l : Layout) (k : lib.Key) (path : Bytes) (w w' : Keystores)
    → IsFaithful lib
    → same l.secrets_dir l.validators_dir ≡ false
    → store_validator_key lib l k path w ≡ (ok tt, w')
    → Stored lib l k w'
unfolding store_validator_key
store_validator_key-Stored lib l k path w w' f d h =
    let (seed, w1, _, h1) = >>=-ok fresh _ w w' h in
    let (password, w2, _, h2) = >>=-ok (or_error _ (lib.random_password seed)) _ w1 w' h1 in
    let (salt, w3, _, h3) = >>=-ok fresh _ w2 w' h2 in
    let (crypto, w4, c, h4) =
      >>=-ok (or_error _ (lib.encrypt l.encryptor salt (lib.marshal_key k) password)) _ w3 w' h3 in
    let (id, w5, _, h5) = >>=-ok fresh _ w4 w' h4 in
    let store : ValidatorKeystore = record {
      crypto = crypto;
      name = [];
      version = lib.encryptor_version;
      uuid = lib.new_uuid id;
      path = path;
      pubkey = lib.public_key k;
    } in
    let (bytes, w6, m, h6) = >>=-ok (or_error _ (lib.marshal_keystore store)) _ w5 w' h5 in
    let (p, q) = write_files-ok lib l (lib.public_key k) password bytes w6 w' d h6 in
    record {
      password = password;
      bytes = bytes;
      text = lib.marshal_key k;
      keystore = store;
      secret = p;
      file = q;
      parsed = f.unmarshal-marshal store bytes (or_error-ok _ _ w5 w6 bytes m).0;
      opened =
          f.decrypt-encrypt l.encryptor salt (lib.marshal_key k) password crypto
            (or_error-ok _ _ w3 w4 crypto c).0;
      key = f.key_from_bytes-marshal_key k;
    }

-- The system lets the files of a key be looked at and read.
pub record IsReadable (l : Layout) (key : Bytes) (w : Keystores) : Type 0 where
  pub secret_stat : w.disk.is_refused stat_call (secret_path l key) ≡ false
  pub secret_read : w.disk.is_refused read_call (secret_path l key) ≡ false
  pub key_stat : w.disk.is_refused stat_call (key_path l key) ≡ false
  pub key_read : w.disk.is_refused read_call (key_path l key) ≡ false

stat-found :
    (p : FilePath) (b : Bytes) (w : Keystores)
    → w.disk.content p ≡ some b
    → w.disk.is_refused stat_call p ≡ false
    → stat p w ≡ (ok exists, w)
unfolding stat
stat-found p b w c s =
    ap (λ x. (ok (if x then failed else presence (w.disk.content p)), w)) s
    ∙ ap (λ x. (ok (presence x), w)) c

read-found :
    (p : FilePath) (b : Bytes) (w : Keystores)
    → w.disk.content p ≡ some b
    → w.disk.is_refused read_call p ≡ false
    → read p w ≡ (ok (some b), w)
unfolding read
read-found p b w c s =
    ap (λ x. (ok (if x then none else w.disk.content p), w)) s ∙ ap (λ x. (ok x, w)) c

read_if_there-found :
    (lib : KeyLibrary) (p : FilePath) (b : Bytes) (w : Keystores)
    → w.disk.content p ≡ some b
    → w.disk.is_refused stat_call p ≡ false
    → w.disk.is_refused read_call p ≡ false
    → read_if_there lib p w ≡ (ok (some b), w)
unfolding read_if_there read_existing ◌>>=◌
read_if_there-found lib p b w c s r =
    ap (next (read_existing lib p)) (stat-found p b w c s)
    ∙ ap (next (λ found. or_error "couldn't read the keystore" found >>= λ x. pure (some x)))
        (read-found p b w c r)

open_keystore-Stored :
    (lib : KeyLibrary) (l : Layout) (k : lib.Key) (w : Keystores) (s : Stored lib l k w)
    → open_keystore lib (lib.public_key k) s.keystore (some s.password) w ≡ (ok (some k), w)
unfolding open_keystore verified_key ◌>>=◌
open_keystore-Stored lib l k w s =
    rw (s.opened, s.key, (same_iff (lib.public_key k) (lib.public_key k)).1 refl)

pub load_validator_key-Stored :
    (lib : KeyLibrary) (l : Layout) (k : lib.Key) (w : Keystores)
    → Stored lib l k w
    → IsReadable l (lib.public_key k) w
    → load_validator_key lib l (lib.public_key k) w ≡ (ok (some k), w)
unfolding load_validator_key with_keystore ◌>>=◌
load_validator_key-Stored lib l k w s r =
    let key = lib.public_key k in
    ap (next (with_keystore lib l key))
      (read_if_there-found lib (key_path l key) s.bytes w s.file r.key_stat r.key_read)
    ∙ ap
        (λ o.
          next
            (λ keystore. read_if_there lib (secret_path l key) >>= open_keystore lib key keystore)
            (or_error "error deserializing keystore" o w))
        s.parsed
    ∙ ap (next (open_keystore lib key s.keystore)) (
        read_if_there-found lib (secret_path l key) s.password w s.secret r.secret_stat
          r.secret_read)
    ∙ open_keystore-Stored lib l k w s
