-- ===== src/NodeWallet/Keeps/Parts.antt =====
-- Every exported method of node/wallet/wallet.go keeps the invariant, part by part.
use node_manager_core.Base.{
  ℕ, ◌≡◌, refl, ap, subst, sym, String, Bool, true, false, Option, none, some, arith, if◌then◌else◌,
  is_some,
}
use node_manager_core.Wallet.{Address, LocalWalletData, WalletData}
use node_manager_core.NodeWallet.Files.{
  Library, Result, ok, err, panic, keystore_already_present, invalid_mnemonic,
}
use node_manager_core.NodeWallet.Local.{LocalManager, load_wallet, get_type}
use node_manager_core.NodeWallet.Local.Loading.{load_wallet-Loads, initialize_keystore-ok}
use node_manager_core.NodeWallet.State.{
  NodeWallet, set_address, set_and_save_address, load_address, save_password,
  get_password_from_disk, Method, wrap, ◌>>=◌, fail, delete_password,
}
use node_manager_core.NodeWallet.Methods.{
  is_wallet_data_on_disk, initialized, install, store_artifacts, store_address, save_if,
  set_manager, build_local_wallet, reload_manager, keep_loaded, save_wallet_data, reload,
  load_wallet_data,
}
use node_manager_core.NodeWallet.Methods.Loading.{load_wallet_data-LoadsFile}
use node_manager_core.NodeWallet.Methods.Building.{initialized-ok, relabel-ok}
use node_manager_core.NodeWallet.Keeps.{
  IsInitialized, IsLive, Keeps, Keeps-wrap, Keeps-bind, Keeps-bind_ok, Keeps-if, Keeps-pure,
  Keeps-fail, Keeps-same,
}
use node_manager_core.NodeWallet.Api.{
  keep_manager, load_and_keep, generate_new_mnemonic, build_new, if_unloaded, load_with_password,
  set_loaded_password, verified, masquerade_as_address, restore_address_to_wallet,
  create_new_local_wallet, recover, set_password,
}

module _ (lib : Library) where
  load_wallet-IsInitialized :
      (m : LocalManager) (d : LocalWalletData) (password : String) (m' : LocalManager)
      (d' : LocalWalletData)
      → load_wallet lib m d password ≡ (ok tt, m', d')
      → IsInitialized m'
  load_wallet-IsInitialized m d password m' d' h =
      let e = (load_wallet-Loads lib m d password m' d' h).manager_after in
      record {
        has_key = ap (λ (x : LocalManager). is_some x.node_private_key) e;
        has_data = ap (λ (x : LocalManager). is_some x.wallet_data) e;
        has_transactor = ap (λ (x : LocalManager). is_some x.transactor) e;
      }

  load_wallet_data-IsInitialized :
      (password : String) (w v : NodeWallet) (m : LocalManager)
      → load_wallet_data lib password w ≡ (ok m, v)
      → IsInitialized m
  load_wallet_data-IsInitialized password w v m h =
      load_wallet-IsInitialized _ _ password m _
        (load_wallet_data-LoadsFile lib password w m v h).loaded

  set_and_save_address_same :
      (a : Address) (w : NodeWallet)
      → (set_and_save_address lib a w).1.wallet_manager ≡ w.wallet_manager
  unfolding set_and_save_address
  set_and_save_address_same a w = ground arith

  load_address_same : (w : NodeWallet) → (load_address lib w).1.wallet_manager ≡ w.wallet_manager
  unfolding load_address
  load_address_same w = ground arith

  save_password_same :
      (password : String) (w : NodeWallet)
      → (save_password password w).1.wallet_manager ≡ w.wallet_manager
  unfolding save_password
  save_password_same password w = ground arith

  save_wallet_data_same :
      (d : WalletData) (w : NodeWallet)
      → (save_wallet_data lib d w).1.wallet_manager ≡ w.wallet_manager
  unfolding save_wallet_data
  save_wallet_data_same d w = ground arith

  delete_password_same : (w : NodeWallet) → (delete_password w).1.wallet_manager ≡ w.wallet_manager
  unfolding delete_password
  delete_password_same w = ground arith

  keep_loaded-IsLive :
      (password : String) (w : NodeWallet) (r : Result LocalManager × NodeWallet)
      → load_wallet_data lib password w ≡ r
      → IsLive r.1
      → IsLive (keep_loaded lib r).1
  unfolding keep_loaded
  keep_loaded-IsLive password w (ok m, v) e h x p =
      subst IsInitialized (cc) (load_wallet_data-IsInitialized password w v m e)
  keep_loaded-IsLive password w (err z, v) e h x p = h x p
  keep_loaded-IsLive password w (panic, v) e h x p = h x p

  load_wallet_data_same :
      (password : String) (w : NodeWallet) → (load_wallet_data lib password w).1 ≡ w
  unfolding load_wallet_data
  load_wallet_data_same password w = refl

  reload_manager-Keeps : (o : Option String) → Keeps (reload_manager lib o)
  unfolding reload_manager
  reload_manager-Keeps none = record { at = λ w h x p. cc }
  reload_manager-Keeps (some password) = record {
    at = λ w h.
        keep_loaded-IsLive password w _ refl
          (subst IsLive (sym (load_wallet_data_same password w)) h);
  }

  set_and_save_address-Keeps : (a : Address) → Keeps (set_and_save_address lib a)
  set_and_save_address-Keeps a = Keeps-same _ (set_and_save_address_same a)

  load_address-Keeps : Keeps (load_address lib)
  load_address-Keeps = Keeps-same _ load_address_same

  save_password-Keeps : (password : String) → Keeps (save_password password)
  save_password-Keeps password = Keeps-same _ (save_password_same password)

  save_wallet_data-Keeps : (d : WalletData) → Keeps (save_wallet_data lib d)
  save_wallet_data-Keeps d = Keeps-same _ (save_wallet_data_same d)

  get_password_from_disk-Keeps : Keeps get_password_from_disk
  unfolding get_password_from_disk
  get_password_from_disk-Keeps = Keeps-same _ (λ w. refl)

  ruleset keeps_rules = (
    Keeps-wrap, Keeps-bind, Keeps-if, Keeps-pure, Keeps-fail, reload_manager-Keeps,
    set_and_save_address-Keeps, load_address-Keeps, save_password-Keeps, save_wallet_data-Keeps,
    get_password_from_disk-Keeps,
  )

  pub reload-Keeps : Keeps (reload lib)
  unfolding reload
  reload-Keeps = search keeps_rules

  store_artifacts-Keeps :
      (d : LocalWalletData) (a : Address) (password : String) (save : Bool)
      → Keeps (store_artifacts lib d a password save)
  unfolding store_artifacts store_address save_if
  store_artifacts-Keeps d a password save = search keeps_rules

  set_manager-Keeps : (m : LocalManager) → IsInitialized m → Keeps (set_manager (some m))
  set_manager-Keeps m i = record { at = λ w h x p. subst IsInitialized (cc) i }

  set_address-Keeps : (a : Address) → Keeps (set_address a)
  unfolding set_address
  set_address-Keeps a = Keeps-same _ (λ w. refl)

  install-Keeps :
      (password : String) (save test_mode : Bool) (d : LocalWalletData) (m : LocalManager)
      → IsInitialized m
      → Keeps (install lib password save test_mode (d, m))
  unfolding install
  install-Keeps password save test_mode d m i =
      search (keeps_rules, store_artifacts-Keeps, set_address-Keeps, set_manager-Keeps)

  initialized-IsInitialized :
      (path : String) (index : ℕ) (mnemonic password : String)
      (made : LocalWalletData × LocalManager) (w v : NodeWallet)
      → wrap "error initializing wallet keystore with recovered data"
          (initialized lib path index mnemonic password)
          w
        ≡ (ok made, v)
      → IsInitialized made.1
  unfolding wrap
  initialized-IsInitialized path index mnemonic password (d, m) w v h =
      let (k, e) = initialized-ok lib path index mnemonic password d m w v (relabel-ok _ _ _ v h) in
      let (text, en, lo) = initialize_keystore-ok lib _ _ path index mnemonic password d m k in
      load_wallet-IsInitialized _ _ password m d lo

  initialized-Keeps :
      (path : String) (index : ℕ) (mnemonic password : String)
      → Keeps (initialized lib path index mnemonic password)
  unfolding initialized
  initialized-Keeps path index mnemonic password = Keeps-same _ (λ w. refl)

  build_local_wallet-Keeps :
      (path : String) (index : ℕ) (mnemonic password : String) (save test_mode : Bool)
      → Keeps (build_local_wallet lib path index mnemonic password save test_mode)
  unfolding build_local_wallet
  build_local_wallet-Keeps path index mnemonic password save test_mode =
      Keeps-bind_ok _ _ (Keeps-wrap _ _ (initialized-Keeps path index mnemonic password))
        λ made w v h.
          install-Keeps password save test_mode made.0 made.1
            (initialized-IsInitialized path index mnemonic password made w v h)

  generate_new_mnemonic-Keeps : Keeps (generate_new_mnemonic lib)
  unfolding generate_new_mnemonic
  generate_new_mnemonic-Keeps = Keeps-same _ (λ w. ground arith)

  if_unloaded-Keeps : {A : Type 0} (m : Method A) → Keeps m → Keeps (if_unloaded lib m)
  if_unloaded-Keeps {A} m k = record { at = λ w h. go w w.wallet_manager (k.at w h) h }
    where
      go :
          (w : NodeWallet) (o : Option LocalManager)
          → IsLive (m w).1
          → IsLive w
          → IsLive
              (let r : Result A × NodeWallet = elim o [
                | none ↦ m w
                | some old ↦ (err keystore_already_present, w)
              ] in
                r).1
      go w none a b = a
      go w (some old) a b = b

  pub create_new_local_wallet-Keeps :
      (path : String) (index : ℕ) (password : String) (save : Bool)
      → Keeps (create_new_local_wallet lib path index password save)
  unfolding create_new_local_wallet build_new
  create_new_local_wallet-Keeps path index password save =
      if_unloaded-Keeps _
        (search (keeps_rules, generate_new_mnemonic-Keeps, build_local_wallet-Keeps))

  pub recover-Keeps :
      (path : String) (index : ℕ) (mnemonic password : String) (save test_mode : Bool)
      → Keeps (recover lib path index mnemonic password save test_mode)
  unfolding recover
  recover-Keeps path index mnemonic password save test_mode =
      if_unloaded-Keeps
        (if lib.is_mnemonic_valid mnemonic
          then build_local_wallet lib path index mnemonic password save test_mode
          else fail (invalid_mnemonic mnemonic))
        (Keeps-if _ _ _ (build_local_wallet-Keeps path index mnemonic password save test_mode)
          (Keeps-fail _))

  pub masquerade_as_address-Keeps : (a : Address) → Keeps (masquerade_as_address lib a)
  unfolding masquerade_as_address
  masquerade_as_address-Keeps a = set_and_save_address-Keeps a

  pub delete_password-Keeps : Keeps delete_password
  delete_password-Keeps = Keeps-same _ delete_password_same

  pub restore_address_to_wallet-Keeps : Keeps (restore_address_to_wallet lib)
  unfolding restore_address_to_wallet set_and_save_address ◌>>=◌ wrap
  restore_address_to_wallet-Keeps = Keeps-same _ (λ w. ground arith)

  -- The check of a password against a loaded manager changes at most its data.
  verified-Keeps :
      (m : LocalManager) (password : String) → IsInitialized m → Keeps (verified lib m password)
  unfolding verified
  verified-Keeps m password i = record { at = λ w h x p. ground arith }

  is_wallet_data_on_disk-Keeps : Keeps is_wallet_data_on_disk
  unfolding is_wallet_data_on_disk
  is_wallet_data_on_disk-Keeps = Keeps-same _ (λ w. refl)

  set_loaded_password-Keeps :
      (password : String) (save : Bool) (m : LocalManager)
      → IsInitialized m
      → Keeps (set_loaded_password lib password save (get_type m) m)
  unfolding set_loaded_password get_type
  set_loaded_password-Keeps password false m i = search keeps_rules
  set_loaded_password-Keeps password true m i = search (keeps_rules, verified-Keeps)

  load_wallet_data-Keeps : (password : String) → Keeps (load_wallet_data lib password)
  unfolding load_wallet_data
  load_wallet_data-Keeps password = Keeps-same _ (λ w. refl)

  relabel_back :
      (password : String) (w : NodeWallet) (m : LocalManager) (v : NodeWallet)
      → wrap "error loading wallet with provided password" (load_wallet_data lib password) w
        ≡ (ok m, v)
      → load_wallet_data lib password w ≡ (ok m, v)
  unfolding wrap
  relabel_back password w m v h = relabel-ok _ _ m v h

  keep_manager-Keeps :
      (password : String) (save : Bool) (m : LocalManager)
      → IsInitialized m
      → Keeps (keep_manager lib password save m)
  unfolding keep_manager
  keep_manager-Keeps password save m i = search (keeps_rules, set_manager-Keeps)

  load_and_keep-Keeps : (password : String) (save : Bool) → Keeps (load_and_keep lib password save)
  unfolding load_and_keep
  load_and_keep-Keeps password save =
      Keeps-bind_ok _ _ (Keeps-wrap _ _ (load_wallet_data-Keeps password)) λ m w v h.
        keep_manager-Keeps password save m
          (load_wallet_data-IsInitialized password w v m (relabel_back _ w m v h))

  load_with_password-Keeps :
      (password : String) (save : Bool) → Keeps (load_with_password lib password save)
  unfolding load_with_password
  load_with_password-Keeps password save =
      search (keeps_rules, is_wallet_data_on_disk-Keeps, load_and_keep-Keeps)

  pub set_password-Keeps :
      (password : String) (save : Bool) → Keeps (set_password lib password save)
  unfolding set_password
  set_password-Keeps password save = record { at = λ w h. go w w.wallet_manager refl h }
    where
      go :
          (w : NodeWallet) (o : Option LocalManager)
          → w.wallet_manager ≡ o
          → IsLive w
          → IsLive
              (let r : Result (Unit {0}) × NodeWallet = elim o [
                | none ↦ load_with_password lib password save w
                | some m ↦ set_loaded_password lib password save (get_type m) m w
              ] in
                r).1
      go w none e h = (load_with_password-Keeps password save).at w h
      go w (some m) e h = (set_loaded_password-Keeps password save m (h m e)).at w h
