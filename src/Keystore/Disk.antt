-- ===== src/Keystore/Disk.antt =====
-- What the keystores of node/validator/keystore share: the files below the keystore path, the calls on
-- them, and the third-party libraries, which are parameters.
use node_manager_core.Base.{
  ℕ, suc, String, Bool, Option, none, some, ◌≡◌, List, if◌then◌else◌, ◌&&◌,
}
use node_manager_core.Utils.Hex.{Bytes, same}

-- A path: the client's directory below the keystore path, and the rest, whose segments are joined.
abbrev pub FilePath : Type 0
FilePath = Bytes × Bytes × Bytes

abbrev pub same_path : FilePath → FilePath → Bool
same_path (a, b, c) (x, y, z) = same a x && (same b y && same c z)

-- The calls of package os.
pub data Call : Type 0 where
  stat_call read_call write_call mkdir_call : Call

-- The files and the calls that the system refuses. A write that is refused may have truncated the file
-- or written a part before; `left_behind` is what it leaves of each file.
pub record Disk : Type 0 where
  pub content : FilePath → Option Bytes
  pub is_refused : Call → FilePath → Bool
  pub left_behind : FilePath → Option Bytes

-- The secret part of a key store on disk, and its plain text fields (beacon/validator.go).
pub record ValidatorKeystore : Type 0 where
  pub crypto : Bytes
  pub name : Bytes
  pub version : ℕ
  pub uuid : ℕ
  pub path : Bytes
  pub pubkey : Bytes

-- Prysm's, whose path and public key stay blank.
pub record PrysmKeystore : Type 0 where
  pub crypto : Bytes
  pub name : Bytes
  pub version : ℕ
  pub uuid : ℕ
  pub path : Bytes
  pub pubkey : Bytes

pub record AccountStore : Type 0 where
  pub private_keys : List Bytes
  pub public_keys : List Bytes

-- The encryptors of keystorev4: with its default cipher, and with scrypt.
pub data Encryptor : Type 0 where
  default_cipher scrypt : Encryptor

-- The random source is a counter of its uses.
pub record KeyLibrary : Type 1 where
  pub Key : Type 0
  pub public_key : Key → Bytes  -- go-eth2-types
  pub marshal_key : Key → Bytes  -- go-eth2-types
  pub key_from_bytes : Bytes → Option Key  -- go-eth2-types
  pub random_password : ℕ → Option Bytes  -- go-password
  pub encrypt : Encryptor → ℕ → Bytes → Bytes → Option Bytes  -- keystorev4, with fresh salt
  pub decrypt : Bytes → Bytes → Option Bytes  -- keystorev4
  pub encryptor_name : Bytes
  pub encryptor_version : ℕ
  pub new_uuid : ℕ → ℕ  -- uuid
  pub marshal_keystore : ValidatorKeystore → Option Bytes  -- go-json
  pub unmarshal_keystore : Bytes → Option ValidatorKeystore
  pub marshal_prysm : PrysmKeystore → Option Bytes
  pub unmarshal_prysm : Bytes → Option PrysmKeystore
  pub marshal_accounts : AccountStore → Option Bytes
  pub unmarshal_accounts : Bytes → Option AccountStore
  pub marshal_config : Bytes → Option Bytes

-- What their documentation promises, as far as the keystores rely on it.
pub record IsFaithful (lib : KeyLibrary) : Type 0 where
  pub decrypt-encrypt :
      (e : Encryptor) (salt : ℕ) (text password crypto : Bytes)
      → lib.encrypt e salt text password ≡ some crypto
      → lib.decrypt crypto password ≡ some text
  pub unmarshal-marshal :
      (k : ValidatorKeystore) (b : Bytes)
      → lib.marshal_keystore k ≡ some b
      → lib.unmarshal_keystore b ≡ some k
  pub key_from_bytes-marshal_key : (k : lib.Key) → lib.key_from_bytes (lib.marshal_key k) ≡ some k

-- The state of the managers: the disk, Prysm's account store once it is read, and the random source.
pub record Keystores : Type 0 where
  pub disk : Disk
  pub accounts : Option AccountStore
  pub entropy : ℕ

pub data Result (A : Type 0) : Type 0 where
  ok : A → Result A
  err : String → Result A
  panic : Result A

abbrev pub Method : Type 0 → Type 0
Method A = Keystores → Result A × Keystores

abbrev pub pure : {A : Type 0} → A → Method A
pure a w = (ok a, w)

abbrev pub fail : {A : Type 0} → String → Method A
fail e w = (err e, w)

abbrev pub next : {A B : Type 0} → (A → Method B) → Result A × Keystores → Result B × Keystores
next f (ok a, w) = f a w
next f (err e, w) = (err e, w)
next f (panic, w) = (panic, w)

infixl 5 ◌>>=◌ ◌>>◌
unfoldable pub ◌>>=◌ : {A B : Type 0} → Method A → (A → Method B) → Method B
◌>>=◌ m f w = next f (m w)

abbrev pub ◌>>◌ : {B : Type 0} → Method (Unit {0}) → Method B → Method B
m >> k = m >>= λ _. k

-- A call that gives nothing is an error with this text.
abbrev pub or_error : {A : Type 0} → String → Option A → Method A
or_error e none w = (err e, w)
or_error e (some a) w = (ok a, w)

-- A use of the random source.
unfoldable pub fresh : Method ℕ
fresh w = (ok w.entropy, record w { entropy = suc w.entropy })

-- `os.Stat`, told apart as the callers do: not there, another error, there.
pub data Stat : Type 0 where
  not_exist failed exists : Stat

abbrev pub presence : Option Bytes → Stat
presence none = not_exist
presence (some b) = exists

unfoldable pub stat : FilePath → Method Stat
stat p w = (ok (if w.disk.is_refused stat_call p then failed else presence (w.disk.content p)), w)

-- `os.ReadFile`; nothing for any error.
unfoldable pub read : FilePath → Method (Option Bytes)
read p w = (ok (if w.disk.is_refused read_call p then none else w.disk.content p), w)

abbrev pub leave : FilePath → Option Bytes → Keystores → Keystores
leave p b w = record w {
  disk = record {
    content = λ q. if same_path p q then b else w.disk.content q;
    is_refused = w.disk.is_refused;
    left_behind = w.disk.left_behind;
  };
}

abbrev pub put : FilePath → Bytes → Keystores → Keystores
put p b w = leave p (some b) w

-- `os.WriteFile`.
unfoldable pub write : String → FilePath → Bytes → Method (Unit {0})
write e p b w =
    if w.disk.is_refused write_call p
    then (err e, leave p (w.disk.left_behind p) w)
    else (ok tt, put p b w)

-- `os.MkdirAll` of the folder of a file; a folder that is made changes no file.
unfoldable pub make_folder : String → FilePath → Method (Unit {0})
make_folder e p w = if w.disk.is_refused mkdir_call p then (err e, w) else (ok tt, w)
