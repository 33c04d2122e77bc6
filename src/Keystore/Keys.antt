-- ===== src/Keystore/Keys.antt =====
-- What loading a key from one keystore of node/validator/keystore can give: the key with the public key
-- that is asked for, none, or an error.
pub mod Prysm
use node_manager_core.Base.{
  ℕ, suc, ◌≡◌, refl, ap, sym, ◌∙◌, subst, String, Bool, true, false, Option, none, some, List, [],
  ◌∷◌, arith, length, ◌==◌, Bool-cases, inl, inr, ◌≢◌,
}
use node_manager_core.Utils.Hex.{Bytes, same}
use node_manager_core.Utils.Hex.RoundTrip.{same_iff}
use node_manager_core.Keystore.Disk.{
  FilePath, AccountStore, ValidatorKeystore, KeyLibrary, Keystores, Method, Result, ok, err, panic,
  pure, fail, fresh, or_error, stat, read, write, make_folder, next, Stat, not_exist, failed,
  exists, ◌>>=◌, ◌>>◌,
}
use node_manager_core.Keystore.Stored.{>>=-ok, or_error-ok, next-ok}
use node_manager_core.Keystore.Direct.{Layout}
use node_manager_core.Keystore.Direct

-- No panic, and a value only with a property.
abbrev pub Allows : {A : Type 0} → (A → Type 0) → Result A → Type 0
Allows P (ok a) = P a
Allows P (err e) = Unit
Allows P panic = ⊥

pub record Gives {A : Type 0} (P : A → Type 0) (m : Method A) : Type 0 where
  pub at : (w : Keystores) → Allows P (m w).0

abbrev pub Any : {A : Type 0} → A → Type 0
Any a = Unit

pub Allows-next :
    {A B : Type 0} (P : A → Type 0) (Q : B → Type 0) (f : A → Method B) (r : Result A × Keystores)
    → Allows P r.0
    → ((a : A) → P a → Gives Q (f a))
    → Allows Q (next f r).0
Allows-next P Q f (ok a, v) h k = (k a h).at v
Allows-next P Q f (err e, v) h k = tt
Allows-next P Q f (panic, v) h k = h

pub Gives-bind :
    {A B : Type 0} (Q : B → Type 0) (m : Method A) (f : A → Method B)
    → Gives Any m
    → ((a : A) → Gives Q (f a))
    → Gives Q (m >>= f)
unfolding ◌>>=◌
Gives-bind Q m f h k = record { at = λ w. Allows-next Any Q f (m w) (h.at w) (λ a p. k a) }

pub Gives-pure : {A : Type 0} (P : A → Type 0) (a : A) → P a → Gives P (pure a)
Gives-pure P a p = record { at = λ w. p }

pub Gives-fail : {A : Type 0} (P : A → Type 0) (e : String) → Gives P (fail e)
Gives-fail P e = record { at = λ w. tt }

pub Gives-or_error : {A : Type 0} (e : String) (o : Option A) → Gives Any (or_error e o)
Gives-or_error e none = record { at = λ w. tt }
Gives-or_error e (some a) = record { at = λ w. tt }

pub Gives-stat : (p : FilePath) → Gives Any (stat p)
unfolding stat
Gives-stat p = record { at = λ w. tt }

pub Gives-read : (p : FilePath) → Gives Any (read p)
unfolding read
Gives-read p = record { at = λ w. tt }

pub ruleset gives_rules =
    (Gives-bind, Gives-pure, Gives-fail, Gives-or_error, Gives-stat, Gives-read)

-- No key, or one with this public key.
abbrev pub Has : (lib : KeyLibrary) → Bytes → Option lib.Key → Type 0
Has lib key none = Unit
Has lib key (some k) = lib.public_key k ≡ key

module _ (lib : KeyLibrary) where
  verified_key-Gives :
      (key : Bytes) (k : lib.Key) → Gives (Has lib key) (Direct.verified_key lib key k)
  unfolding Direct.verified_key
  verified_key-Gives key k = elim (Bool-cases (same (lib.public_key k) key)) [
    | inl e ↦ rw e (Gives-pure (Has lib key) (some k) ((same_iff (lib.public_key k) key).0 e))
    | inr e ↦ rw e (Gives-fail (Has lib key) _)
  ]

  read_existing-Gives : (p : FilePath) (s : Stat) → Gives Any (Direct.read_existing lib p s)
  unfolding Direct.read_existing
  read_existing-Gives p not_exist = record { at = λ w. tt }
  read_existing-Gives p failed = record { at = λ w. tt }
  read_existing-Gives p exists = search gives_rules depth 8

  read_if_there-Gives : (p : FilePath) → Gives Any (Direct.read_if_there lib p)
  unfolding Direct.read_if_there
  read_if_there-Gives p = Gives-bind Any _ _ (Gives-stat p) (λ s. read_existing-Gives p s)

  open_keystore-Gives :
      (key : Bytes) (store : ValidatorKeystore) (secret : Option Bytes)
      → Gives (Has lib key) (Direct.open_keystore lib key store secret)
  unfolding Direct.open_keystore
  open_keystore-Gives key store none = record { at = λ w. tt }
  open_keystore-Gives key store (some password) = search (gives_rules, verified_key-Gives) depth 8

  with_keystore-Gives :
      (l : Layout) (key : Bytes) (o : Option Bytes)
      → Gives (Has lib key) (Direct.with_keystore lib l key o)
  unfolding Direct.with_keystore
  with_keystore-Gives l key none = record { at = λ w. tt }
  with_keystore-Gives l key (some bytes) =
      search (gives_rules, open_keystore-Gives, read_if_there-Gives) depth 8

  pub direct_load-Gives :
      (l : Layout) (key : Bytes) → Gives (Has lib key) (Direct.load_validator_key lib l key)
  unfolding Direct.load_validator_key
  direct_load-Gives l key = search (gives_rules, with_keystore-Gives, read_if_there-Gives) depth 8
