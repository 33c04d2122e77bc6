-- ===== src/NodeWallet/Masquerade.antt =====
-- The node address and the wallet's own address (`MasqueradeAsAddress`, `RestoreAddressToWallet` and
-- `GetStatus` of node/wallet/wallet.go, `IsWalletReady` of wallet/utils.go).
use node_manager_core.Base.{ℕ, ◌≡◌, ◌↔◌, ap, ◌∙◌, true, none, some, arith, ◌==◌, ==-self}
use node_manager_core.Wallet.{Address, WalletStatus, is_wallet_ready}
use node_manager_core.NodeWallet.Files.{Library, ok, panic, TransactOpts}
use node_manager_core.NodeWallet.Local.{LocalManager}
use node_manager_core.NodeWallet.Local
use node_manager_core.NodeWallet.State.{NodeWallet, ◌>>=◌, wrap}
use node_manager_core.NodeWallet.Api.{
  masquerade_as_address, restore_address_to_wallet, get_status, get_transactor, clone_opts,
}

module _ (lib : Library) where
  -- The wallet has a manager loaded, and it has the address.
  pub record Holds (w : NodeWallet) (a : Address) : Type 0 where
    pub manager : LocalManager
    pub loaded : w.wallet_manager ≡ some manager
    pub address : Local.get_address lib manager ≡ ok a

  status_ready :
      (w v : NodeWallet) (a : Address) (s : WalletStatus)
      → Holds w a
      → w.is_address_loaded ≡ true
      → get_status lib w ≡ (ok s, v)
      → is_wallet_ready s ≡ (w.address == a)
  unfolding get_status is_wallet_ready ◌>>=◌ wrap
  status_ready w v a s h l e = ground arith

  masquerade-Holds :
      (b : Address) (w v : NodeWallet) (a : Address)
      → Holds w a
      → masquerade_as_address lib b w ≡ (ok tt, v)
      → Holds v a × (v.address ≡ b) × (v.is_address_loaded ≡ true)
  unfolding masquerade_as_address
  masquerade-Holds b w v a h e = ground arith

  restore-Holds :
      (w v : NodeWallet) (a : Address)
      → Holds w a
      → restore_address_to_wallet lib w ≡ (ok tt, v)
      → Holds v a × (v.address ≡ a) × (v.is_address_loaded ≡ true)
  unfolding restore_address_to_wallet ◌>>=◌ wrap
  restore-Holds w v a h e = ground arith

  -- While a loaded wallet masquerades as an address, it is reported as ready exactly if that address
  -- is its own; after the address is restored, it is its own again, and the wallet is ready.
  pub masquerade_restore :
      (b : Address) (w v u : NodeWallet) (a : Address) (s t : WalletStatus) (v' u' : NodeWallet)
      → Holds w a
      → masquerade_as_address lib b w ≡ (ok tt, v)
      → get_status lib v ≡ (ok s, v')
      → restore_address_to_wallet lib v ≡ (ok tt, u)
      → get_status lib u ≡ (ok t, u')
      → (is_wallet_ready s ≡ (b == a)) × (is_wallet_ready t ≡ true) × (u.address ≡ a)
  masquerade_restore b w v u a s t v' u' h m p r q =
      let (hv, av, lv) = masquerade-Holds b w v a h m in
      let (hu, au, lu) = restore-Holds v u a hv r in
      (
        status_ready v v' a s hv lv p ∙ ap (λ (x : ℕ). x == a) av,
        status_ready u u' a t hu lu q ∙ ap (λ (x : ℕ). x == a) au ∙ ==-self a,
        au,
      )

-- Restoring the address panics exactly if no wallet is loaded: the guard against that case looks at
-- the wrong manager.
pub restore_panics_iff :
    (lib : Library) (w : NodeWallet)
    → ((restore_address_to_wallet lib w).0 ≡ panic) ↔ (w.wallet_manager ≡ none)
unfolding restore_address_to_wallet ◌>>=◌ wrap
restore_panics_iff lib w = (ground arith, ground arith)

-- A caller of `GetTransactor` gets the loaded transactor's options just as they are, exactly if those
-- have no tip cap; with one, the copy has it as its fee cap, and has no tip cap.
pub get_transactor_iff :
    (w : NodeWallet) (m : LocalManager) (t : TransactOpts)
    → w.wallet_manager ≡ some m
    → m.transactor ≡ some t
    → (get_transactor w ≡ (ok (clone_opts t), w))
      × ((clone_opts t ≡ t) ↔ (t.gas_tip_cap ≡ none))
      × ((c : ℕ) → t.gas_tip_cap ≡ some c → (clone_opts t).gas_fee_cap ≡ some c)
unfolding get_transactor ◌>>=◌
get_transactor_iff w m t e f = (ground arith, (ground arith, ground arith), ground arith)
