-- ===== src/NodeWallet/Methods/Building.antt =====
-- What a successful `buildLocalWallet` (node/wallet/wallet.go) went through and wrote.
use node_manager_core.Base.{
  ℕ, suc, ◌≡◌, refl, String, true, false, some, arith, Option-cases, inl, inr,
}
use node_manager_core.Wallet.{Address, LocalWalletData, WalletData, local}
use node_manager_core.NodeWallet.Files.{Bytes, Library, File, write, Result, ok, err, panic}
use node_manager_core.NodeWallet.Local.{
  LocalManager, new_local_manager, load_wallet, fresh_data, initialize_keystore,
}
use node_manager_core.NodeWallet.Local
use node_manager_core.NodeWallet.State.{
  NodeWallet, Method, next, relabel, ◌>>=◌, wrap, set_and_save_address, save_password,
}
use node_manager_core.NodeWallet.Methods.{
  save_wallet_data, build_local_wallet, address_or_zero, initialized, install, store_artifacts,
  store_address, save_if, set_manager,
}
use node_manager_core.NodeWallet.Local.Loading.{initialize_keystore-ok}

-- Inversion of a bind and of a relabelled call that succeed.
pub next-ok :
    {A B : Type 0} (f : A → Method B) (r : Result A × NodeWallet) (b : B) (w : NodeWallet)
    → next f r ≡ (ok b, w)
    → (a : A) × (v : NodeWallet) × (r ≡ (ok a, v)) × (f a v ≡ (ok b, w))
next-ok f (ok a, v) b w h = (a, v, refl, h)
next-ok f (err e, v) b w h = cc
next-ok f (panic, v) b w h = cc

pub relabel-ok :
    {A : Type 0} (text : String) (r : Result A × NodeWallet) (a : A) (w : NodeWallet)
    → relabel text r ≡ (ok a, w)
    → r ≡ (ok a, w)
relabel-ok text (ok a', v) a w h = h
relabel-ok text (err e, v) a w h = cc
relabel-ok text (panic, v) a w h = cc

abbrev pub written : {A : Type 0} → File A → A → File A
written file a = record file { content = some a }

pub write-ok :
    {A : Type 0} (a : A) (file file' : File A)
    → write a file ≡ (true, file')
    → file' ≡ written file a
unfolding write
write-ok a file file' h = ground arith

module _ (lib : Library) where
  pub save_wallet_data-ok :
      (d : WalletData) (w v : NodeWallet)
      → save_wallet_data lib d w ≡ (ok tt, v)
      → (bytes : Bytes) × (lib.marshal d ≡ some bytes)
        × (v ≡ record w { wallet_file = written w.wallet_file bytes })
  unfolding save_wallet_data write
  save_wallet_data-ok d w v h = elim (Option-cases (lib.marshal d)) [
    | inl e ↦ absurd (ground arith)
    | inr (bytes, e) ↦ (bytes, e, ground arith)
  ]

  pub set_and_save_address-ok :
      (a : Address) (w v : NodeWallet)
      → set_and_save_address lib a w ≡ (ok tt, v)
      → v ≡ record w {
        address = a;
        is_address_loaded = true;
        address_file = written w.address_file (lib.address_hex a);
      }
  unfolding set_and_save_address write
  set_and_save_address-ok a w v h = ground arith

pub save_password-ok :
    (password : String) (w v : NodeWallet)
    → save_password password w ≡ (ok tt, v)
    → v ≡ record w { password_file = written w.password_file password }
unfolding save_password write
save_password-ok password w v h = ground arith

-- All that a successful build outside of test mode, with the password saved, computed and wrote.
pub record Builds (lib : Library) (path : String) (index : ℕ) (mnemonic password : String)
    (w w' : NodeWallet) : Type 0 where
  pub text : Bytes
  pub manager : LocalManager
  pub wallet_data : LocalWalletData
  pub bytes : Bytes
  pub encrypted : lib.encrypt w.entropy (lib.new_seed mnemonic) password ≡ some text
  pub loaded :
      load_wallet lib
        (new_local_manager w.chain_id)
        (fresh_data lib w.entropy path index text)
        password
      ≡ (ok tt, manager, wallet_data)
  pub marshalled : lib.marshal (record { type = local; local_data = wallet_data }) ≡ some bytes
  pub after : w' ≡ record w {
    wallet_manager = some manager;
    address = address_or_zero lib (Local.get_address lib manager);
    is_address_loaded = true;
    wallet_file = written w.wallet_file bytes;
    address_file =
        written w.address_file
          (lib.address_hex (address_or_zero lib (Local.get_address lib manager)));
    password_file = written w.password_file password;
    entropy = suc w.entropy;
  }

module _ (lib : Library) where
  pub initialized-ok :
      (path : String) (index : ℕ) (mnemonic password : String) (d : LocalWalletData)
      (m : LocalManager) (w v : NodeWallet)
      → initialized lib path index mnemonic password w ≡ (ok (d, m), v)
      → (initialize_keystore lib
            (new_local_manager w.chain_id)
            w.entropy
            path
            index
            mnemonic
            password
          ≡ (ok d, m))
        × (v ≡ record w { entropy = suc w.entropy })
  unfolding initialized
  initialized-ok path index mnemonic password d m w v h = ground arith

  abbrev Stored : LocalWalletData → Address → String → NodeWallet → NodeWallet → Type 0
  Stored d a password w v =
      (bytes : Bytes) × (lib.marshal (record { type = local; local_data = d }) ≡ some bytes)
      × (v ≡ record w {
        address = a;
        is_address_loaded = true;
        wallet_file = written w.wallet_file bytes;
        address_file = written w.address_file (lib.address_hex a);
        password_file = written w.password_file password;
      })

  store_address-ok :
      (a : Address) (password : String) (w v : NodeWallet)
      → store_address lib a password true w ≡ (ok tt, v)
      → v ≡ record w {
        address = a;
        is_address_loaded = true;
        address_file = written w.address_file (lib.address_hex a);
        password_file = written w.password_file password;
      }
  unfolding store_address ◌>>=◌ wrap
  store_address-ok a password w v h =
      let (u, w₁, e, h') =
        next-ok (λ _. save_if lib password true)
          (wrap "error saving wallet address to node address file" (set_and_save_address lib a) w)
          tt v h in
      let e₁ = set_and_save_address-ok lib a w w₁ (relabel-ok _ _ u w₁ e) in
      let e₂ = save_password-ok password w₁ v (relabel-ok _ _ tt v h') in cc

  store_artifacts-Stored :
      (d : LocalWalletData) (a : Address) (password : String) (w v : NodeWallet)
      → store_artifacts lib d a password true w ≡ (ok tt, v)
      → Stored d a password w v
  unfolding store_artifacts ◌>>=◌ wrap
  store_artifacts-Stored d a password w v h =
      let (u, w₁, e, h') =
        next-ok (λ _. store_address lib a password true)
          (wrap "error saving wallet data"
            (save_wallet_data lib (record { type = local; local_data = d })) w)
          tt v h in
      let (bytes, m, e₁) = save_wallet_data-ok lib _ w w₁ (relabel-ok _ _ u w₁ e) in
      let e₂ = store_address-ok a password w₁ v h' in (bytes, m, cc)

  install-ok :
      (d : LocalWalletData) (m : LocalManager) (password : String) (w w' : NodeWallet)
      → install lib password true false (d, m) w ≡ (ok tt, w')
      → (v : NodeWallet) × Stored d (address_or_zero lib (Local.get_address lib m)) password w v
        × (w' ≡ record v { wallet_manager = some m })
  unfolding install ◌>>=◌
  install-ok d m password w w' h =
      let a = address_or_zero lib (Local.get_address lib m) in
      let (u, v, e, h') =
        next-ok (λ _. set_manager (some m)) (store_artifacts lib d a password true w) tt w' h in
      (v, store_artifacts-Stored d a password w v e, cc)

  -- A successful build outside of test mode, with the password saved, is made of these parts.
  pub build_local_wallet-Builds :
      (path : String) (index : ℕ) (mnemonic password : String) (w w' : NodeWallet)
      → build_local_wallet lib path index mnemonic password true false w ≡ (ok tt, w')
      → Builds lib path index mnemonic password w w'
  unfolding build_local_wallet ◌>>=◌ wrap
  build_local_wallet-Builds path index mnemonic password w w' h =
      let ((d, m), v₁, e₁, h₁) =
        next-ok (install lib password true false)
          (wrap "error initializing wallet keystore with recovered data"
            (initialized lib path index mnemonic password) w)
          tt w' h in
      let (k, s₁) =
        initialized-ok path index mnemonic password d m w v₁ (relabel-ok _ _ (d, m) v₁ e₁) in
      let (v, (bytes, ma, s₂), s₃) = install-ok d m password v₁ w' h₁ in
      let (text, en, lo) = initialize_keystore-ok lib _ _ path index mnemonic password d m k in
      record {
        text = text;
        manager = m;
        wallet_data = d;
        bytes = bytes;
        encrypted = en;
        loaded = lo;
        marshalled = ma;
        after = cc;
      }
