-- ===== src/NodeWallet/Api.antt =====
-- The exported methods of node/wallet/wallet.go that change the wallet or report on it.
use node_manager_core.Base.{
  ℕ, suc, String, Bool, true, false, Option, none, some, is_some, if◌then◌else◌,
}
use node_manager_core.Wallet.{Address, WalletType, unknown, local, hardware, unnamed, WalletStatus}
use node_manager_core.NodeWallet.Files.{
  wallet_already_loaded, keystore_already_present, keystore_not_present, not_supported,
  invalid_password, invalid_mnemonic, other, Result, ok, err, panic, TransactOpts, Library,
}
use node_manager_core.NodeWallet.Local.{LocalManager, get_type, verify_password}
use node_manager_core.NodeWallet.Local
use node_manager_core.NodeWallet.State.{
  NodeWallet, Method, pure, fail, ◌>>=◌, ◌>>◌, wrap, set_and_save_address, get_password_from_disk,
  save_password,
}
use node_manager_core.NodeWallet.Methods.{
  set_manager, with_manager, is_wallet_data_on_disk, load_wallet_data, build_local_wallet,
}

-- The result of a call on the manager that changes nothing.
abbrev lift : {A : Type 0} → Result A → Method A
lift r w = (r, w)

-- `GetTransactor` copies the options; the last assignment of the source writes the tip cap into the
-- copy's fee cap, and the copy's tip cap stays nil.
unfoldable pub clone_opts : TransactOpts → TransactOpts
clone_opts opts = record {
  from = opts.from;
  signer = opts.signer;
  nonce = opts.nonce;
  value = opts.value;
  gas_price = opts.gas_price;
  gas_fee_cap = if is_some opts.gas_tip_cap then opts.gas_tip_cap else opts.gas_fee_cap;
  gas_tip_cap = none;
  gas_limit = opts.gas_limit;
  no_send = opts.no_send;
}

unfoldable pub get_transactor : Method TransactOpts
unfolding clone_opts Local.get_transactor
get_transactor = with_manager λ m. do opts ← lift (Local.get_transactor m); pure (clone_opts opts)

unfoldable pub get_address : NodeWallet → Address × Bool
get_address w = (w.address, w.is_address_loaded)

module _ (lib : Library) where
  unfoldable pub masquerade_as_address : Address → Method (Unit {0})
  unfolding set_and_save_address
  masquerade_as_address a = set_and_save_address lib a

  -- The guard of the source looks at the address manager, which is never nil, so that a nil wallet
  -- manager is called, and panics.
  unfoldable pub restore_address_to_wallet : Method (Unit {0})
  unfolding set_and_save_address Local.get_address
  restore_address_to_wallet w = elim w.wallet_manager [
    | none ↦ (panic, w)
    | some m ↦
        (wrap "error getting wallet address" (lift (Local.get_address lib m))
            >>= set_and_save_address lib)
          w
  ]

  unfoldable pub generate_new_mnemonic : Method String
  generate_new_mnemonic w = elim (lib.new_mnemonic w.entropy) [
    | none ↦ (err (other "error generating wallet mnemonic"), record w { entropy = suc w.entropy })
    | some text ↦ (ok text, record w { entropy = suc w.entropy })
  ]

  -- Only a wallet with no manager goes on.
  abbrev pub if_unloaded : {A : Type 0} → Method A → Method A
  if_unloaded m w = elim w.wallet_manager [
    | none ↦ m w
    | some old ↦ (err keystore_already_present, w)
  ]

  -- What `CreateNewLocalWallet` does with its mnemonic.
  unfoldable pub build_new : String → ℕ → String → Bool → String → Method String
  build_new path index password save mnemonic = do
    wrap "error initializing new wallet keystore"
        (build_local_wallet lib path index mnemonic password save false)
    pure mnemonic

  unfoldable pub create_new_local_wallet : String → ℕ → String → Bool → Method String
  create_new_local_wallet path index password save =
      if_unloaded (generate_new_mnemonic >>= build_new path index password save)

  unfoldable pub recover : String → ℕ → String → String → Bool → Bool → Method (Unit {0})
  recover path index mnemonic password save test_mode = if_unloaded (
      if lib.is_mnemonic_valid mnemonic
      then build_local_wallet lib path index mnemonic password save test_mode
      else fail (invalid_mnemonic mnemonic))

  -- What `VerifyPassword` changes of the manager's data stays changed.
  unfoldable pub verified : LocalManager → String → Method Bool
  unfolding verify_password
  verified m password w =
      let (r, m') = verify_password lib m password in (r, record w { wallet_manager = some m' })

  -- With a manager loaded the password is checked against it, and saved.
  unfoldable pub set_loaded_password : String → Bool → WalletType → LocalManager → Method (Unit {0})
  unfolding verified save_password
  set_loaded_password password false type m = fail wallet_already_loaded
  set_loaded_password password true local m = do
    valid ← wrap "error setting password" (verified m password)
    if valid then save_password password else fail invalid_password
  set_loaded_password password true unknown m = fail not_supported
  set_loaded_password password true hardware m = fail not_supported
  set_loaded_password password true (unnamed text) m = fail not_supported

  unfoldable pub keep_manager : String → Bool → LocalManager → Method (Unit {0})
  keep_manager password save m = do
    if save then save_password password else pure tt
    set_manager (some m)

  unfoldable pub load_and_keep : String → Bool → Method (Unit {0})
  unfolding load_wallet_data keep_manager
  load_and_keep password save = do
    m ← wrap "error loading wallet with provided password" (load_wallet_data lib password)
    keep_manager password save m

  -- With none, the wallet is loaded from its file.
  unfoldable pub load_with_password : String → Bool → Method (Unit {0})
  unfolding load_and_keep
  load_with_password password save = do
    present ← wrap "error checking if wallet data is on disk" is_wallet_data_on_disk
    if present then pure tt else fail keystore_not_present
    load_and_keep password save

  unfoldable pub set_password : String → Bool → Method (Unit {0})
  unfolding set_loaded_password load_with_password get_type
  set_password password save w = elim w.wallet_manager [
    | none ↦ load_with_password password save w
    | some m ↦ set_loaded_password password save (get_type m) m w
  ]

  -- The manager's part of `GetStatus`: loaded, on disk, the type and the address.
  manager_status : Option LocalManager → Method (Bool × Bool × WalletType × Address)
  unfolding is_wallet_data_on_disk Local.get_address get_type
  manager_status none = do
    present ← wrap "error checking if wallet data is on disk" is_wallet_data_on_disk
    pure (false, present, unknown, 0)
  manager_status (some m) = do
    a ← wrap "error getting wallet address" (lift (Local.get_address lib m))
    pure (true, true, get_type m, a)

  unfoldable pub get_status : Method WalletStatus
  unfolding manager_status get_password_from_disk
  get_status w =
      (do
        saved ← wrap "error checking password manager status" get_password_from_disk
        (loaded, present, type, a) ← manager_status w.wallet_manager
        pure (record {
          node_address = w.address;
          has_address = w.is_address_loaded;
          type = type;
          is_loaded = loaded;
          is_on_disk = present;
          wallet_address = a;
          is_password_saved = is_some saved;
        }))
        w
