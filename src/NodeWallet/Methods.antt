-- ===== src/NodeWallet/Methods.antt =====
-- node/wallet/wallet.go: what its methods share, from the wallet's file to the loaded manager and back.
pub mod Building
pub mod Made
pub mod Loading
use node_manager_core.Base.{
  ℕ, suc, String, Bool, true, false, not, Option, none, some, is_some, if◌then◌else◌,
}
use node_manager_core.Wallet.{
  Address, WalletType, unknown, local, hardware, unnamed, LocalWalletData, WalletData, WalletStatus,
}
use node_manager_core.NodeWallet.Files.{
  Bytes, WalletError, wallet_not_loaded, wallet_already_loaded, keystore_already_present,
  keystore_not_present, not_supported, invalid_password, invalid_mnemonic, other, wrapped, Result,
  ok, err, panic, File, Stat, not_exist, failed, exists, stat, read, write, TransactOpts, Library,
}
use node_manager_core.NodeWallet.Local.{
  LocalManager, Loaded, new_local_manager, get_type, load_wallet, initialize_keystore,
  verify_password,
}
use node_manager_core.NodeWallet.Local
use node_manager_core.NodeWallet.State.{
  NodeWallet, Method, pure, fail, next, ◌>>=◌, ◌>>◌, wrap, load_address, set_address,
  set_and_save_address, get_password_from_disk, save_password,
}

abbrev pub set_manager : Option LocalManager → Method (Unit {0})
set_manager m w = (ok tt, record w { wallet_manager = m })

-- A call on the loaded manager; with none loaded it is an error.
abbrev pub with_manager : {A : Type 0} → (LocalManager → Method A) → Method A
with_manager f w = elim w.wallet_manager [ none ↦ (err wallet_not_loaded, w) | some m ↦ f m w ]

on_disk : Stat → Result Bool
on_disk not_exist = ok false
on_disk failed = err (other "error checking if wallet file exists")
on_disk exists = ok true

unfoldable pub is_wallet_data_on_disk : Method Bool
unfolding on_disk
is_wallet_data_on_disk w = (on_disk (stat w.wallet_file), w)

module _ (lib : Library) where
  loaded_manager : Loaded → Result LocalManager
  loaded_manager (ok u, m, d) = ok m
  loaded_manager (err e, m, d) = err (wrapped "error loading local wallet data" e)
  loaded_manager (panic, m, d) = panic

  load_type : ℕ → LocalWalletData → String → WalletType → Result LocalManager
  unfolding loaded_manager
  load_type chain d password local =
      loaded_manager (load_wallet lib (new_local_manager chain) d password)
  load_type chain d password unknown = err (other "unsupported wallet type")
  load_type chain d password hardware = err (other "unsupported wallet type")
  load_type chain d password (unnamed text) = err (other "unsupported wallet type")

  load_parsed : ℕ → String → Option WalletData → Result LocalManager
  unfolding load_type
  load_parsed chain password none = err (other "error deserializing wallet data")
  load_parsed chain password (some d) = load_type chain d.local_data password d.type

  load_bytes : ℕ → String → Option Bytes → Result LocalManager
  unfolding load_parsed
  load_bytes chain password none = err (other "error reading wallet data")
  load_bytes chain password (some bytes) = load_parsed chain password (lib.unmarshal bytes)

  unfoldable pub load_wallet_data : String → Method LocalManager
  unfolding load_bytes
  load_wallet_data password w = (load_bytes w.chain_id password (read w.wallet_file), w)

  -- A wallet that does not load leaves the manager as it was; the logger has no part in it.
  unfoldable pub keep_loaded : Result LocalManager × NodeWallet → Result (Unit {0}) × NodeWallet
  keep_loaded (ok m, w) = (ok tt, record w { wallet_manager = some m })
  keep_loaded (err e, w) = (ok tt, w)
  keep_loaded (panic, w) = (panic, w)

  unfoldable pub reload_manager : Option String → Method (Unit {0})
  unfolding keep_loaded load_wallet_data
  reload_manager none w = set_manager none w
  reload_manager (some password) w = keep_loaded (load_wallet_data password w)

  unfoldable pub reload : Method (Unit {0})
  unfolding reload_manager get_password_from_disk load_address
  reload = do
    password ← wrap "error loading password" get_password_from_disk
    reload_manager password
    found ← wrap "error loading node address" (load_address lib)
    pure tt

  -- `NewWallet` over the files at its paths.
  unfoldable pub new_wallet :
      ℕ → File Bytes → File Bytes → File String → ℕ → Result (Unit {0}) × NodeWallet
  unfolding reload
  new_wallet chain wallet_file address_file password_file entropy = reload (record {
    wallet_manager = none;
    address = 0;
    is_address_loaded = false;
    chain_id = chain;
    wallet_file = wallet_file;
    address_file = address_file;
    password_file = password_file;
    entropy = entropy;
  })

  abbrev saved_file : Bool × File Bytes → Method (Unit {0})
  saved_file (false, file) w =
      (err (other "error writing wallet data"), record w { wallet_file = file })
  saved_file (true, file) w = (ok tt, record w { wallet_file = file })

  saved_data : Option Bytes → Method (Unit {0})
  saved_data none w = (err (other "error serializing wallet data"), w)
  saved_data (some bytes) w = saved_file (write bytes w.wallet_file) w

  unfoldable pub save_wallet_data : WalletData → Method (Unit {0})
  unfolding saved_data
  save_wallet_data d = saved_data (lib.marshal d)

  abbrev pub address_or_zero : Result Address → Address
  address_or_zero (ok a) = a
  address_or_zero (err e) = 0
  address_or_zero panic = 0

  -- The random source is used once for the salt and the UUID.
  unfoldable pub initialized :
      String → ℕ → String → String → Method (LocalWalletData × LocalManager)
  initialized path index mnemonic password w =
      let (r, m) =
        initialize_keystore lib (new_local_manager w.chain_id) w.entropy path index mnemonic
          password in
      (
        elim r [ ok d ↦ ok (d, m) | err e ↦ err e | panic ↦ panic ],
        record w { entropy = suc w.entropy },
      )

  unfoldable pub save_if : String → Bool → Method (Unit {0})
  unfolding save_password
  save_if password save =
      if save then wrap "error saving password" (save_password password) else pure tt

  unfoldable pub store_address : Address → String → Bool → Method (Unit {0})
  unfolding set_and_save_address save_if
  store_address a password save = do
    wrap "error saving wallet address to node address file" (set_and_save_address lib a)
    save_if password save

  -- What is written to disk outside of test mode.
  unfoldable pub store_artifacts : LocalWalletData → Address → String → Bool → Method (Unit {0})
  unfolding save_wallet_data store_address
  store_artifacts d a password save = do
    wrap "error saving wallet data" (save_wallet_data (record { type = local; local_data = d }))
    store_address a password save

  unfoldable pub install : String → Bool → Bool → LocalWalletData × LocalManager → Method (Unit {0})
  unfolding store_artifacts set_address
  install password save test_mode (d, m) =
      let a = address_or_zero (Local.get_address lib m) in
      do
        if not test_mode then store_artifacts d a password save else set_address a
        set_manager (some m)

  unfoldable pub build_local_wallet : String → ℕ → String → String → Bool → Bool → Method (Unit {0})
  unfolding initialized install
  build_local_wallet path index mnemonic password save test_mode = do
    made ←
        wrap "error initializing wallet keystore with recovered data"
          (initialized path index mnemonic password)
    install password save test_mode made
