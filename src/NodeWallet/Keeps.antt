-- ===== src/NodeWallet/Keeps.antt =====
-- The invariant that a loaded manager of the node wallet is wholly initialized, and the rules by which
-- a method that is built of parts keeps it (node/wallet/wallet.go).
pub mod Parts
use node_manager_core.Base.{
  ℕ, suc, ◌≡◌, ◌≢◌, refl, ap, subst, sym, ◌∙◌, String, Bool, true, false, Option, none, some, List,
  [], ◌∷◌, arith, if◌then◌else◌, Option-cases, Bool-cases, inl, inr, is_some,
}
use node_manager_core.Wallet.{Address, LocalWalletData, WalletData}
use node_manager_core.NodeWallet.Files.{
  Library, Result, ok, err, panic, keystore_already_present, WalletError, File, Bytes,
}
use node_manager_core.NodeWallet.Local.{
  LocalManager, Loaded, load_wallet, new_local_manager, initialize_keystore, verify_password,
  get_type,
}
use node_manager_core.NodeWallet.Local
use node_manager_core.NodeWallet.Local.Loading.{Loads, load_wallet-Loads, initialize_keystore-ok}
use node_manager_core.NodeWallet.State.{
  NodeWallet, set_address, set_and_save_address, load_address, save_password,
  get_password_from_disk, Method, next, relabel, wrap, ◌>>=◌, pure, fail, delete_password,
}
use node_manager_core.NodeWallet.Methods.{
  is_wallet_data_on_disk, initialized, install, store_artifacts, store_address, save_if,
  set_manager, build_local_wallet, reload_manager, keep_loaded, save_wallet_data, reload,
  new_wallet, load_wallet_data,
}
use node_manager_core.NodeWallet.Methods.Loading.{load_wallet_data-LoadsFile}
use node_manager_core.NodeWallet.Methods.Building.{initialized-ok, relabel-ok}
use node_manager_core.NodeWallet.Api.{
  generate_new_mnemonic, build_new, if_unloaded, load_with_password, set_loaded_password, verified,
  masquerade_as_address, restore_address_to_wallet, create_new_local_wallet, recover, set_password,
}

-- The manager has its key, its data and its transactor, as `LoadWallet` sets them together.
pub record IsInitialized (m : LocalManager) : Type 0 where
  pub has_key : is_some m.node_private_key ≡ true
  pub has_data : is_some m.wallet_data ≡ true
  pub has_transactor : is_some m.transactor ≡ true

abbrev pub IsLive : NodeWallet → Type 0
IsLive w = (m : LocalManager) → w.wallet_manager ≡ some m → IsInitialized m

-- A method keeps the invariant, whatever its result.
pub record Keeps {A : Type 0} (m : Method A) : Type 0 where
  pub at : (w : NodeWallet) → IsLive w → IsLive (m w).1

pub Keeps-next :
    {A B : Type 0} (f : A → Method B) (r : Result A × NodeWallet)
    → IsLive r.1
    → ((a : A) (v : NodeWallet) → r ≡ (ok a, v) → IsLive v → IsLive (f a v).1)
    → IsLive (next f r).1
Keeps-next f (ok a, v) h k = k a v refl h
Keeps-next f (err e, v) h k = h
Keeps-next f (panic, v) h k = h

pub Keeps-relabel :
    {A : Type 0} (text : String) (r : Result A × NodeWallet)
    → IsLive r.1
    → IsLive (relabel text r).1
Keeps-relabel text (ok a, v) h = h
Keeps-relabel text (err e, v) h = h
Keeps-relabel text (panic, v) h = h

pub Keeps-wrap : {A : Type 0} (text : String) (m : Method A) → Keeps m → Keeps (wrap text m)
unfolding wrap
Keeps-wrap text m k = record { at = λ w h. Keeps-relabel text (m w) (k.at w h) }

pub Keeps-bind :
    {A B : Type 0} (m : Method A) (f : A → Method B)
    → Keeps m
    → ((a : A) → Keeps (f a))
    → Keeps (m >>= f)
unfolding ◌>>=◌
Keeps-bind m f k l = record { at = λ w h. Keeps-next f (m w) (k.at w h) (λ a v e. (l a).at v) }

-- The rest may use that the first call gave its value.
pub Keeps-bind_ok :
    {A B : Type 0} (m : Method A) (f : A → Method B)
    → Keeps m
    → ((a : A) (w v : NodeWallet) → m w ≡ (ok a, v) → Keeps (f a))
    → Keeps (m >>= f)
unfolding ◌>>=◌
Keeps-bind_ok m f k l = record {
  at = λ w h. Keeps-next f (m w) (k.at w h) (λ a v e. (l a w v e).at v);
}

pub Keeps-if :
    {A : Type 0} (b : Bool) (m n : Method A) → Keeps m → Keeps n → Keeps (if b then m else n)
Keeps-if true m n k l = k
Keeps-if false m n k l = l

pub Keeps-pure : {A : Type 0} (a : A) → Keeps (pure a)
Keeps-pure a = record { at = λ w h. h }

pub Keeps-fail : {A : Type 0} (e : WalletError) → Keeps (fail {A = A} e)
Keeps-fail e = record { at = λ w h. h }

-- Methods that leave the manager alone.
pub Keeps-same :
    {A : Type 0} (m : Method A)
    → ((w : NodeWallet) → (m w).1.wallet_manager ≡ w.wallet_manager)
    → Keeps m
Keeps-same m e = record { at = λ w h x p. h x (sym (e w) ∙ p) }
