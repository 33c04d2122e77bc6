-- ===== src/NodeWallet/Files.antt =====
-- What node/wallet shares: its errors, the files that it keeps, and the third-party libraries that it
-- calls, which are parameters.
use node_manager_core.Base.{
  ℕ, String, ◌≡◌, Bool, true, false, Option, none, some, List, if◌then◌else◌,
}
use node_manager_core.Wallet.{Address, WalletData}

abbrev pub Bytes : Type 0
Bytes = List ℕ

-- The named errors of wallet.go, and the others by their text.
pub data WalletError : Type 0 where
  wallet_not_loaded wallet_already_loaded keystore_already_present keystore_not_present :
      WalletError
  not_supported invalid_password : WalletError
  invalid_mnemonic : String → WalletError
  other : String → WalletError
  wrapped : String → WalletError → WalletError

pub data Result {ℓ} (A : Type ℓ) : Type ℓ where
  ok : A → Result A
  err : WalletError → Result A
  panic : Result A

-- A file: its content, if it is there, and the calls on it that the system refuses. A write that is
-- refused may have truncated the file or written a part before; `left_behind` is what it leaves, which
-- is the old content if the file could not be opened.
pub record File (A : Type 0) : Type 0 where
  pub content : Option A
  pub stat_refused : Bool
  pub read_refused : Bool
  pub write_refused : Bool
  pub remove_refused : Bool
  pub left_behind : Option A

-- `os.Stat`, told apart as the callers do: not there, another error, there.
pub data Stat : Type 0 where
  not_exist failed exists : Stat

module _ {A : Type 0} where
  presence : Option A → Stat
  presence none = not_exist
  presence (some a) = exists

  unfoldable pub stat : File A → Stat
  unfolding presence
  stat file = if file.stat_refused then failed else presence file.content

  -- `os.ReadFile`; `none` is any error.
  unfoldable pub read : File A → Option A
  read file = if file.read_refused then none else file.content

  abbrev pub left_over : File A → File A
  left_over file = record file { content = file.left_behind }

  -- `os.WriteFile`: whether it succeeds, and the file afterwards.
  unfoldable pub write : A → File A → Bool × File A
  write a file =
      if file.write_refused
      then (false, left_over file)
      else (true, record file { content = some a })

  removed : File A → Option A → Option (File A)
  removed file none = none
  removed file (some a) =
      if file.remove_refused then none else some (record file { content = none })

  -- `os.Remove`; `none` is any error.
  unfoldable pub remove : File A → Option (File A)
  unfolding removed
  remove file = removed file file.content

-- One step of an HD key derivation.
pub data Child : Type 0 where
  child : Bytes → Child
  invalid_child : Child
  no_child : Child

-- The transaction options of go-ethereum. The signer is told by the key and the chain that it signs for.
pub record TransactOpts : Type 0 where
  pub from : Address
  pub signer : ℕ × ℕ
  pub nonce : Option ℕ
  pub value : Option ℕ
  pub gas_price : Option ℕ
  pub gas_fee_cap : Option ℕ
  pub gas_tip_cap : Option ℕ
  pub gas_limit : ℕ
  pub no_send : Bool

-- The calls of third-party libraries. A seed and an extended key are bytes, a private key is its
-- number. `stack_depth` is how often `getDerivedKey` can call itself before Go's stack overflows.
pub record Library : Type 0 where
  pub is_mnemonic_valid : String → Bool  -- bip39
  pub new_mnemonic : ℕ → Option String  -- bip39, from fresh entropy
  pub new_seed : String → Bytes  -- bip39
  pub encrypt : ℕ → Bytes → String → Option Bytes  -- keystorev4, with fresh salt
  pub decrypt : Bytes → String → Option Bytes  -- keystorev4
  pub encryptor_name : String
  pub encryptor_version : ℕ
  pub new_uuid : ℕ → ℕ  -- uuid
  pub new_master : Bytes → Option Bytes  -- hdkeychain
  pub parse_path : String → ℕ → Option (List ℕ)  -- accounts.ParseDerivationPath of the formatted path
  pub derive : Bytes → ℕ → Child  -- hdkeychain
  pub ec_priv_key : Bytes → Option ℕ  -- hdkeychain
  pub keyed_transactor : ℕ → ℕ → Option TransactOpts  -- bind
  pub pubkey_to_address : ℕ → Address  -- crypto
  pub marshal : WalletData → Option Bytes  -- go-json
  pub unmarshal : Bytes → Option WalletData  -- go-json
  pub address_hex : Address → Bytes  -- common.Address.Hex
  pub hex_to_address : Bytes → Address  -- common.HexToAddress
  pub stack_depth : ℕ

-- What the documentation of those libraries promises, as far as the wallet relies on it.
pub record IsFaithful (lib : Library) : Type 0 where
  pub decrypt-encrypt :
      (salt : ℕ) (seed : Bytes) (password : String) (text : Bytes)
      → lib.encrypt salt seed password ≡ some text
      → lib.decrypt text password ≡ some seed
  pub unmarshal-marshal :
      (d : WalletData) (b : Bytes) → lib.marshal d ≡ some b → lib.unmarshal b ≡ some d
  pub hex_to_address-address_hex : (a : Address) → lib.hex_to_address (lib.address_hex a) ≡ a
