-- ===== src/NodeWallet/Local.antt =====
-- node/wallet/local-wallet-manager.go: the manager of a local keystore, which holds the decrypted seed,
-- the node's private key and its transactor.
pub mod Derivation
pub mod Loading
use mathlib.Core.Option
use text.Mathlib.Text.{◌==◌ as str_eq}
use node_manager_core.Base.{
  ℕ, zero, suc, ◌+◌, ◌%◌, ◌^◌, String, Bool, true, false, Option, none, some, List, [], ◌∷◌, ◌==◌,
  if◌then◌else◌,
}
use node_manager_core.Wallet.{Address, LocalWalletData, WalletType, local, default_node_key_path}
use node_manager_core.NodeWallet.Files.{
  Bytes, WalletError, other, wrapped, Result, ok, err, panic, Child, child, invalid_child, no_child,
  TransactOpts, Library,
}

pub record LocalManager : Type 0 where
  pub chain_id : ℕ
  pub seed : Bytes
  pub node_private_key : Option ℕ
  pub wallet_data : Option LocalWalletData
  pub transactor : Option TransactOpts

-- A chain ID is below 2 ^ 63, so that its conversion to int64 keeps it.
unfoldable pub new_local_manager : ℕ → LocalManager
new_local_manager chain = record {
  chain_id = chain;
  seed = [];
  node_private_key = none;
  wallet_data = none;
  transactor = none;
}

unfoldable pub get_type : LocalManager → WalletType
get_type m = local

abbrev not_initialized : WalletError
not_initialized = other "wallet is not initialized"

-- The end of the loop over a derivation path; `invalid` is the library's ErrInvalidChild.
pub data Derived : Type 0 where
  reached : Bytes → Derived
  invalid broken : Derived

-- `VerifyPassword` compares the key bytes of both managers; a nil key makes `FromECDSA` give none.
key_bytes_equal : Option ℕ → Option ℕ → Bool
key_bytes_equal none none = true
key_bytes_equal none (some k) = false
key_bytes_equal (some j) none = false
key_bytes_equal (some j) (some k) = j == k

-- An empty path stands for the default one.
unfoldable pub with_path : LocalWalletData → LocalWalletData
with_path d =
    if str_eq d.derivation_path "" then record d { derivation_path = default_node_key_path } else d

transactor_or_error : Option TransactOpts → Result TransactOpts
transactor_or_error none = err not_initialized
transactor_or_error (some t) = ok t

unfoldable pub get_transactor : LocalManager → Result TransactOpts
unfolding transactor_or_error
get_transactor m = transactor_or_error m.transactor

-- `LoadWallet` gives its error, the manager and the data that it was handed, which it changes on the
-- way also where it fails later on.
abbrev pub Loaded : Type 0
Loaded = Result (Unit {0}) × LocalManager × LocalWalletData

module _ (lib : Library) where
  key_address : Option ℕ → Result Address
  key_address none = err not_initialized
  key_address (some key) = ok (lib.pubkey_to_address key)

  unfoldable pub get_address : LocalManager → Result Address
  unfolding key_address
  get_address m = key_address m.node_private_key

  unfoldable pub follow : Bytes → List ℕ → Derived
  follow key [] = reached key
  follow key (n ∷ path) = elim (lib.derive key n) [
    | child k ↦ follow k path
    | invalid_child ↦ invalid
    | no_child ↦ broken
  ]

  -- `none` is an error of the path's parser.
  unfoldable pub derive_at : Bytes → String → ℕ → Option Derived
  unfolding follow
  derive_at master path index = Option.map (follow master) (lib.parse_path path index)

  key_or_next : ℕ → Result (Bytes × ℕ) → Option Derived → Result (Bytes × ℕ)
  key_or_next index next none = err (other "invalid node key derivation path")
  key_or_next index next (some (reached key)) = ok (key, index)
  key_or_next index next (some invalid) = next
  key_or_next index next (some broken) = err (other "invalid child key")

  -- An invalid child starts over with the next index, a machine word; a call with no stack left
  -- panics.
  unfoldable pub get_derived_key : ℕ → Bytes → String → ℕ → Result (Bytes × ℕ)
  unfolding key_or_next
  get_derived_key zero master path index = panic
  get_derived_key (suc stack) master path index =
      let next = get_derived_key stack master path ((index + 1) % 2 ^ 64) in
      key_or_next index next (derive_at master path index)

  store_transactor : LocalManager → LocalWalletData → Bytes → ℕ → Option TransactOpts → Loaded
  store_transactor m d seed key none =
      (err (other "error creating transactor for node private key"), m, d)
  store_transactor m d seed key (some t) = (
    ok tt,
    record m {
      seed = seed;
      node_private_key = some key;
      wallet_data = some d;
      transactor = some t;
    },
    d,
  )

  store_key : LocalManager → LocalWalletData → Bytes → Option ℕ → Loaded
  unfolding store_transactor
  store_key m d seed none = (err (other "error getting node wallet private key"), m, d)
  store_key m d seed (some key) =
      store_transactor m d seed key (lib.keyed_transactor key m.chain_id)

  load_derived : LocalManager → LocalWalletData → Bytes → Result (Bytes × ℕ) → Loaded
  unfolding store_key
  load_derived m d seed (err e) = (err (wrapped "error getting node wallet derived key" e), m, d)
  load_derived m d seed panic = (panic, m, d)
  load_derived m d seed (ok (key, index)) =
      store_key m (record d { wallet_index = index }) seed (lib.ec_priv_key key)

  load_master : LocalManager → LocalWalletData → Bytes → Option Bytes → Loaded
  unfolding load_derived with_path
  load_master m d seed none = (err (other "error creating wallet master key"), m, d)
  load_master m d seed (some master) =
      let d' = with_path d in
      load_derived m d' seed
        (get_derived_key lib.stack_depth master d'.derivation_path d'.wallet_index)

  load_seed : LocalManager → LocalWalletData → Option Bytes → Loaded
  unfolding load_master
  load_seed m d none = (err (other "error decrypting wallet keystore"), m, d)
  load_seed m d (some seed) = load_master m d seed (lib.new_master seed)

  unfoldable pub load_wallet : LocalManager → LocalWalletData → String → Loaded
  unfolding load_seed
  load_wallet m d password = load_seed m d (lib.decrypt d.crypto password)

  after_load : Loaded → Result LocalWalletData × LocalManager
  after_load (ok u, m, d) = (ok d, m)
  after_load (err e, m, d) = (err (wrapped "error loading wallet after initialization" e), m)
  after_load (panic, m, d) = (panic, m)

  -- The data of a new keystore.
  unfoldable pub fresh_data : ℕ → String → ℕ → Bytes → LocalWalletData
  fresh_data fresh path index text = record {
    crypto = text;
    name = lib.encryptor_name;
    version = lib.encryptor_version;
    uuid = lib.new_uuid fresh;
    derivation_path = path;
    wallet_index = index;
  }

  load_encrypted :
      LocalManager → ℕ → String → ℕ → String → Option Bytes → Result LocalWalletData × LocalManager
  unfolding load_wallet after_load fresh_data
  load_encrypted m fresh path index password none = (err (other "error encrypting wallet seed"), m)
  load_encrypted m fresh path index password (some text) =
      after_load (load_wallet m (fresh_data fresh path index text) password)

  -- `InitializeKeystore`; `fresh` stands for the random salt and UUID.
  unfoldable pub initialize_keystore :
      LocalManager → ℕ → String → ℕ → String → String → Result LocalWalletData × LocalManager
  unfolding load_encrypted
  initialize_keystore m fresh path index mnemonic password =
      load_encrypted m fresh path index password
        (lib.encrypt fresh (lib.new_seed mnemonic) password)

  compare_candidate : LocalManager → Loaded → Result Bool × LocalManager
  unfolding key_bytes_equal
  compare_candidate m (ok u, candidate, d) = (
    ok (key_bytes_equal m.node_private_key candidate.node_private_key),
    record m { wallet_data = some d },
  )
  compare_candidate m (err e, candidate, d) = (
    err (wrapped "error verifying wallet with candidate password" e),
    record m { wallet_data = some d },
  )
  compare_candidate m (panic, candidate, d) = (panic, record m { wallet_data = some d })

  verify_data : LocalManager → String → Option LocalWalletData → Result Bool × LocalManager
  unfolding compare_candidate load_wallet new_local_manager
  verify_data m password none = (err not_initialized, m)
  verify_data m password (some d) =
      compare_candidate m (load_wallet (new_local_manager 0) d password)

  -- The candidate manager shares the data with this one, so that what its load changes is seen here.
  unfoldable pub verify_password : LocalManager → String → Result Bool × LocalManager
  unfolding verify_data
  verify_password m password = verify_data m password m.wallet_data
