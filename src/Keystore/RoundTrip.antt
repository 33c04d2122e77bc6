-- ===== src/Keystore/RoundTrip.antt =====
-- A key that the manager of node/validator/validator-manager.go has stored can be loaded again.
use node_manager_core.Base.{
  ◌≡◌, refl, ap, ◌∙◌, subst, String, false, Option, none, some, List, [], ◌∷◌, ◌++◌, All,
}
use node_manager_core.Base.Reorders.{All-found, Inserted, Reorders}
use node_manager_core.Utils.Hex.{Bytes, same}
use node_manager_core.Keystore.Disk.{
  KeyLibrary, IsFaithful, Keystores, Method, Result, ok, err, panic, FilePath, Call, stat_call,
  read_call,
}
use node_manager_core.Keystore.Direct.{Layout, secret_path, key_path}
use node_manager_core.Keystore.Manager.{
  Client, direct, keystore_managers, dir_of, store_in, load_from, store_key, tried, try_managers,
  load_key,
}
use node_manager_core.Keystore.Order.{
  Elsewhere, OnceIn, only, later, OnceIn-Reorders, Apart, keystore_managers-Apart,
}
use node_manager_core.Keystore.Clients.{store_in-Stays, load_from-Stays, load_from-Allows}
use node_manager_core.Keystore.Frames.{IsBalanced, Frames}
use node_manager_core.Keystore.Stored.{
  >>=-ok, Stored, store_validator_key-Stored, IsReadable, load_validator_key-Stored,
}
use node_manager_core.Keystore.Keys.{Allows, Has}

module _ (lib : KeyLibrary) (l : Layout) (k : lib.Key) where
  -- What a call on another keystore leaves as it is.
  Stored-Frames :
      (dir : Bytes) (w v : Keystores)
      → same dir l.keystore_dir ≡ false
      → Frames dir w v
      → Stored lib l k w
      → Stored lib l k v
  unfolding secret_path key_path
  Stored-Frames dir w v e f s = record {
    password = s.password;
    bytes = s.bytes;
    text = s.text;
    keystore = s.keystore;
    secret = f.others (secret_path l (lib.public_key k)) e ∙ s.secret;
    file = f.others (key_path l (lib.public_key k)) e ∙ s.file;
    parsed = s.parsed;
    opened = s.opened;
    key = s.key;
  }

  IsReadable-Frames :
      (dir key : Bytes) (w v : Keystores) → Frames dir w v → IsReadable l key w → IsReadable l key v
  IsReadable-Frames dir key w v f r =
      let at : (c : Call) (p : FilePath) → v.disk.is_refused c p ≡ w.disk.is_refused c p =
        λ c p. ap (λ g. g c p) f.refusals in
      record {
        secret_stat = at stat_call (secret_path l key) ∙ r.secret_stat;
        secret_read = at read_call (secret_path l key) ∙ r.secret_read;
        key_stat = at stat_call (key_path l key) ∙ r.key_stat;
        key_read = at read_call (key_path l key) ∙ r.key_read;
      }

  store_in-Frames :
      (c : Client) (path : Bytes) (w v : Keystores) {r : Result (Unit {0})}
      → IsBalanced w
      → store_in lib c k path w ≡ (r, v)
      → Frames (dir_of c) w v
  store_in-Frames c path w v b h =
      subst (Frames (dir_of c) w) (ap (λ x. x.1) h) ((store_in-Stays lib c k path).at w b)

  store_key-keeps :
      (cs : List Client) (path : Bytes) (w w' : Keystores)
      → All (Elsewhere l) cs
      → IsBalanced w
      → Stored lib l k w
      → store_key lib cs k path w ≡ (ok tt, w')
      → Stored lib l k w' × IsBalanced w'
  unfolding store_key
  store_key-keeps [] path w w' e b s h =
      let p : w ≡ w' = cc in (subst (Stored lib l k) p s, subst IsBalanced p b)
  store_key-keeps (c ∷ cs) path w w' (d, e) b s h =
      let (_, v, h1, h2) = >>=-ok (store_in lib c k path) _ w w' h in
      let f = store_in-Frames c path w v b h1 in
      store_key-keeps cs path v w' e f.balanced (Stored-Frames (dir_of c) w v d f s) h2

  store_key-Stored :
      (cs : List Client) (path : Bytes) (w w' : Keystores)
      → OnceIn l cs
      → IsFaithful lib
      → same l.secrets_dir l.validators_dir ≡ false
      → IsBalanced w
      → store_key lib cs k path w ≡ (ok tt, w')
      → Stored lib l k w' × IsBalanced w'
  unfolding store_key store_in
  store_key-Stored _ path w w' (only cs e) f d b h =
      let (_, v, h1, h2) = >>=-ok (store_in lib (direct l) k path) _ w w' h in
      store_key-keeps cs path v w' e (store_in-Frames (direct l) path w v b h1).balanced
        (store_validator_key-Stored lib l k path w v f d h1) h2
  store_key-Stored _ path w w' (later c cs e o) f d b h =
      let (_, v, h1, h2) = >>=-ok (store_in lib c k path) _ w w' h in
      store_key-Stored cs path v w' o f d (store_in-Frames c path w v b h1).balanced h2

  -- Where a key is loaded, it is one with the public key that is asked for.
  abbrev Loads : Result lib.Key × Keystores → Type 0
  Loads r =
      (k' : lib.Key) × (v : Keystores) × (r ≡ (ok k', v)) × (lib.public_key k' ≡ lib.public_key k)

  tried-Loads :
      (rest : List String → Method lib.Key) (errors : List String)
      (r : Result (Option lib.Key) × Keystores)
      → Allows (Has lib (lib.public_key k)) r.0
      → ((es : List String) → Loads (rest es r.1))
      → Loads (tried lib rest errors r)
  unfolding tried
  tried-Loads rest errors (ok (some k'), w) h g = (k', w, refl, h)
  tried-Loads rest errors (ok none, w) h g = g errors
  tried-Loads rest errors (err e, w) h g = g (errors ++ (e ∷ []))
  tried-Loads rest errors (panic, w) h g = elim h [ ]

  try_managers-Loads :
      (cs : List Client) (errors : List String) (w : Keystores)
      → OnceIn l cs
      → IsBalanced w
      → Stored lib l k w
      → IsReadable l (lib.public_key k) w
      → Loads (try_managers lib cs (lib.public_key k) errors w)
  unfolding try_managers tried load_from
  try_managers-Loads _ errors w (only cs e) b s r =
      rw (load_validator_key-Stored lib l k w s r) (k, w, refl, refl)
  try_managers-Loads _ errors w (later c cs e o) b s r =
      let f = (load_from-Stays lib c (lib.public_key k)).at w b in
      let v = (load_from lib c (lib.public_key k) w).1 in
      tried-Loads (try_managers lib cs (lib.public_key k)) errors
        (load_from lib c (lib.public_key k) w) (load_from-Allows lib c (lib.public_key k) w b)
        (λ es.
          try_managers-Loads cs es v o f.balanced (Stored-Frames (dir_of c) w v e f s)
            (IsReadable-Frames (dir_of c) (lib.public_key k) w v f r))

-- When the manager has stored a key in all of its keystores without an error, then it can load a key with
-- that public key, whatever the orders in which it goes over its map, as long as the system lets the key's
-- files be read in one of the keystores with one file for each key. The libraries are faithful, and Prysm's
-- lists in memory, where they are read, are of one length.
pub load_key-store_key :
    (lib : KeyLibrary) (l : Layout) (rest order1 order2 : List Client) (k : lib.Key) (path : Bytes)
    (w w' : Keystores)
    → IsFaithful lib
    → Inserted (direct l) rest keystore_managers
    → Reorders keystore_managers order1
    → Reorders keystore_managers order2
    → IsBalanced w
    → store_key lib order1 k path w ≡ (ok tt, w')
    → IsReadable l (lib.public_key k) w'
    → (k' : lib.Key) × (v : Keystores) × (load_key lib order2 (lib.public_key k) w' ≡ (ok k', v))
      × (lib.public_key k' ≡ lib.public_key k)
unfolding load_key Apart
load_key-store_key lib l rest order1 order2 k path w w' f i r1 r2 b h r =
    let (o, d) = All-found Apart (direct l) rest keystore_managers i keystore_managers-Apart in
    let (s, b') =
      store_key-Stored lib l k order1 path w w' (OnceIn-Reorders l keystore_managers order1 r1 o) f
        d b h in
    try_managers-Loads lib l k order2 [] w' (OnceIn-Reorders l keystore_managers order2 r2 o) b' s r
