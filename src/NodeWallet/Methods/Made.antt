-- ===== src/NodeWallet/Methods/Made.antt =====
-- What every successful `buildLocalWallet` (node/wallet/wallet.go) keeps, whether or not it is in test mode
-- and whether or not the password is saved.
use node_manager_core.Base.{ℕ, ◌≡◌, ap, sym, ◌∙◌, String, Bool, true, false, some}
use node_manager_core.Wallet.{Address, LocalWalletData, local}
use node_manager_core.NodeWallet.Files.{Bytes, Library, ok}
use node_manager_core.NodeWallet.Local.{LocalManager, new_local_manager, load_wallet, fresh_data}
use node_manager_core.NodeWallet.Local
use node_manager_core.NodeWallet.State.{NodeWallet, ◌>>=◌, wrap, set_address, set_and_save_address}
use node_manager_core.NodeWallet.Methods.{
  build_local_wallet, address_or_zero, initialized, install, store_artifacts, store_address,
  save_if, set_manager, save_wallet_data,
}
use node_manager_core.NodeWallet.Methods.Building.{
  next-ok, relabel-ok, initialized-ok, set_and_save_address-ok, save_password-ok,
}
use node_manager_core.NodeWallet.Local.Loading.{initialize_keystore-ok}

-- The parts of a build that its key and address come from.
pub record Makes (lib : Library) (path : String) (index : ℕ) (mnemonic password : String)
    (w w' : NodeWallet) : Type 0 where
  pub text : Bytes
  pub manager : LocalManager
  pub wallet_data : LocalWalletData
  pub encrypted : lib.encrypt w.entropy (lib.new_seed mnemonic) password ≡ some text
  pub loaded :
      load_wallet lib
        (new_local_manager w.chain_id)
        (fresh_data lib w.entropy path index text)
        password
      ≡ (ok tt, manager, wallet_data)
  pub has_manager : w'.wallet_manager ≡ some manager
  pub has_address : w'.address ≡ address_or_zero lib (Local.get_address lib manager)

module _ (lib : Library) where
  save_if-address :
      (password : String) (save : Bool) (w v : NodeWallet)
      → save_if lib password save w ≡ (ok tt, v)
      → v.address ≡ w.address
  unfolding save_if wrap
  save_if-address password false w v h = cc
  save_if-address password true w v h =
      ap (λ (x : NodeWallet). x.address) (save_password-ok password w v (relabel-ok _ _ tt v h))

  store_artifacts-address :
      (d : LocalWalletData) (a : Address) (password : String) (save : Bool) (w v : NodeWallet)
      → store_artifacts lib d a password save w ≡ (ok tt, v)
      → v.address ≡ a
  unfolding store_artifacts store_address ◌>>=◌ wrap
  store_artifacts-address d a password save w v h =
      let (u, w₁, e, h₁) =
        next-ok (λ _. store_address lib a password save)
          (wrap "error saving wallet data"
            (save_wallet_data lib (record { type = local; local_data = d })) w)
          tt v h in
      let (u', w₂, e', h₂) =
        next-ok (λ _. save_if lib password save)
          (wrap "error saving wallet address to node address file" (set_and_save_address lib a) w₁)
          tt v h₁ in
      save_if-address password save w₂ v h₂
      ∙ ap (λ (x : NodeWallet). x.address)
          (set_and_save_address-ok lib a w₁ w₂ (relabel-ok _ _ u' w₂ e'))

  install-made :
      (d : LocalWalletData) (m : LocalManager) (password : String) (save test_mode : Bool)
      (w w' : NodeWallet)
      → install lib password save test_mode (d, m) w ≡ (ok tt, w')
      → (w'.wallet_manager ≡ some m) × (w'.address ≡ address_or_zero lib (Local.get_address lib m))
  unfolding install ◌>>=◌ set_address
  install-made d m password save true w w' h = (
    ap (λ (x : _ × NodeWallet). x.1.wallet_manager) (sym h),
    ap (λ (x : _ × NodeWallet). x.1.address) (sym h),
  )
  install-made d m password save false w w' h =
      let a = address_or_zero lib (Local.get_address lib m) in
      let (u, v, e, h') =
        next-ok (λ _. set_manager (some m)) (store_artifacts lib d a password save w) tt w' h in
      let s = store_artifacts-address d a password save w v e in
      let q : record v { wallet_manager = some m } ≡ w' = ap (λ x. x.1) h' in
      (
        ap (λ (x : NodeWallet). x.wallet_manager) (sym q),
        ap (λ (x : NodeWallet). x.address) (sym q) ∙ s,
      )

  pub build_local_wallet-Makes :
      (path : String) (index : ℕ) (mnemonic password : String) (save test_mode : Bool)
      (w w' : NodeWallet)
      → build_local_wallet lib path index mnemonic password save test_mode w ≡ (ok tt, w')
      → Makes lib path index mnemonic password w w'
  unfolding build_local_wallet ◌>>=◌ wrap
  build_local_wallet-Makes path index mnemonic password save test_mode w w' h =
      let ((d, m), v, e, h') =
        next-ok (install lib password save test_mode)
          (wrap "error initializing wallet keystore with recovered data"
            (initialized lib path index mnemonic password) w)
          tt w' h in
      let (k, s) =
        initialized-ok lib path index mnemonic password d m w v (relabel-ok _ _ (d, m) v e) in
      let (text, en, lo) = initialize_keystore-ok lib _ _ path index mnemonic password d m k in
      let (p, q) = install-made d m password save test_mode v w' h' in
      record {
        text = text;
        manager = m;
        wallet_data = d;
        encrypted = en;
        loaded = lo;
        has_manager = p;
        has_address = q;
      }
