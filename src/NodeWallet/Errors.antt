-- ===== src/NodeWallet/Errors.antt =====
-- Setting the password of a wallet that is not loaded (`SetPassword` of node/wallet/wallet.go), with its
-- error paths.
use node_manager_core.Base.{
  ◌≡◌, ◌≢◌, refl, subst, sym, String, Bool, true, false, Option, none, some, arith, Bool-cases, inl,
  inr, ◌⊎◌, if◌then◌else◌,
}
use node_manager_core.NodeWallet.Files.{
  Library, Result, ok, err, panic, keystore_not_present, other, write, left_over,
}
use node_manager_core.NodeWallet.Local.{LocalManager, get_type}
use node_manager_core.NodeWallet.State.{
  NodeWallet, next, relabel, ◌>>=◌, wrap, pure, fail, ◌>>◌, save_password,
}
use node_manager_core.NodeWallet.Methods.{load_wallet_data, is_wallet_data_on_disk}
use node_manager_core.NodeWallet.Methods.Building.{written}
use node_manager_core.NodeWallet.Api.{
  set_password, set_loaded_password, load_with_password, load_and_keep, keep_manager,
}

module _ (lib : Library) where
  -- `load_wallet_data` only reads.
  load_wallet_data_reads :
      (password : String) (w : NodeWallet)
      → load_wallet_data lib password w ≡ ((load_wallet_data lib password w).0, w)
  unfolding load_wallet_data
  load_wallet_data_reads password w = refl

  -- The outcome of a password for a wallet that is on disk but not loaded.
  pub data Unlocks (password : String) (save : Bool) (w : NodeWallet)
      : Result (Unit {0}) × NodeWallet → Type 0 where
    refused :
        (r : Result (Unit {0}))
        → r ≢ ok tt
        → ((is_wallet_data_on_disk w).0 ≢ ok true)
          ⊎ ((m : LocalManager) → load_wallet_data lib password w ≢ (ok m, w))
        → Unlocks password save w (r, w)
    unsaved :
        (m : LocalManager)
        → load_wallet_data lib password w ≡ (ok m, w)
        → save ≡ true
        → w.password_file.write_refused ≡ true
        → Unlocks password save w (
          err (other "error saving password"),
          record w { password_file = left_over w.password_file },
        )
    unlocked :
        (m : LocalManager)
        → load_wallet_data lib password w ≡ (ok m, w)
        → save ≡ false
        → Unlocks password save w (ok tt, record w { wallet_manager = some m })
    saved :
        (m : LocalManager)
        → load_wallet_data lib password w ≡ (ok m, w)
        → save ≡ true
        → w.password_file.write_refused ≡ false
        → Unlocks password save w (
          ok tt,
          record w { wallet_manager = some m; password_file = written w.password_file password },
        )

  keep_manager-Unlocks :
      (password : String) (save : Bool) (w : NodeWallet) (m : LocalManager)
      → load_wallet_data lib password w ≡ (ok m, w)
      → Unlocks password save w (keep_manager lib password save m w)
  unfolding keep_manager ◌>>=◌ save_password write
  keep_manager-Unlocks password false w m h = unlocked m h refl
  keep_manager-Unlocks password true w m h = elim (Bool-cases w.password_file.write_refused) [
    | inl e ↦
        let q : keep_manager lib password true m w ≡ (
          err (other "error saving password"),
          record w { password_file = left_over w.password_file },
        ) =
          ground arith in
        subst (Unlocks password true w) (sym q) (unsaved m h refl e)
    | inr e ↦
        let q : keep_manager lib password true m w ≡ (
          ok tt,
          record w { wallet_manager = some m; password_file = written w.password_file password },
        ) =
          ground arith in
        subst (Unlocks password true w) (sym q) (saved m h refl e)
  ]

  kept :
      (password : String) (save : Bool) (w : NodeWallet) (r : Result LocalManager)
      → load_wallet_data lib password w ≡ (r, w)
      → Unlocks password save w (
          next
            (keep_manager lib password save)
            (relabel "error loading wallet with provided password" (r, w)))
  kept password save w (ok m) h = keep_manager-Unlocks password save w m h
  kept password save w (err e) h = refused _ (λ p. cc) (inr (λ m p. cc))
  kept password save w panic h = refused _ (λ p. cc) (inr (λ m p. cc))

  load_and_keep-Unlocks :
      (password : String) (save : Bool) (w : NodeWallet)
      → Unlocks password save w (load_and_keep lib password save w)
  unfolding load_and_keep ◌>>=◌ wrap
  load_and_keep-Unlocks password save w = kept password save w _ (load_wallet_data_reads password w)

  with_disk :
      (password : String) (save : Bool) (w : NodeWallet) (r : Result Bool)
      → (is_wallet_data_on_disk w).0 ≡ r
      → Unlocks password save w (
          next
            (λ present.
              (if present then pure tt else fail keystore_not_present)
              >> load_and_keep lib password save)
            (relabel "error checking if wallet data is on disk" (r, w)))
  unfolding ◌>>=◌
  with_disk password save w (ok true) h = load_and_keep-Unlocks password save w
  with_disk password save w (ok false) h = refused _ (λ p. cc) (inl (λ q. cc))
  with_disk password save w (err e) h = refused _ (λ p. cc) (inl (λ q. cc))
  with_disk password save w panic h = refused _ (λ p. cc) (inl (λ q. cc))

  load_with_password-Unlocks :
      (password : String) (save : Bool) (w : NodeWallet)
      → Unlocks password save w (load_with_password lib password save w)
  unfolding load_with_password is_wallet_data_on_disk ◌>>=◌ wrap
  load_with_password-Unlocks password save w =
      with_disk password save w (is_wallet_data_on_disk w).0 refl

  unloaded :
      (password : String) (save : Bool) (w : NodeWallet)
      → w.wallet_manager ≡ none
      → set_password lib password save w ≡ load_with_password lib password save w
  unfolding set_password
  unloaded password save w e = go w.wallet_manager e
    where
      go :
          (o : Option LocalManager)
          → o ≡ none
          → (let r : Result (Unit {0}) × NodeWallet = elim o [
            | none ↦ load_with_password lib password save w
            | some m ↦ set_loaded_password lib password save (get_type m) m w
          ] in
              r)
            ≡ load_with_password lib password save w
      go none p = refl
      go (some m) p = cc

  -- A password for a wallet that is not loaded opens the wallet that is on disk, and is then saved
  -- exactly if that was asked for. It fails only where the wallet's data are not found on disk or are not
  -- loaded with the password, with all as it was, or where the password opens the wallet but the
  -- password file refuses the write: then nothing is loaded, and that file alone is changed, to what the
  -- failed write left.
  pub set_password-Unlocks :
      (password : String) (save : Bool) (w : NodeWallet)
      → w.wallet_manager ≡ none
      → Unlocks password save w (set_password lib password save w)
  set_password-Unlocks password save w e =
      subst (Unlocks password save w) (sym (unloaded password save w e))
        (load_with_password-Unlocks password save w)
