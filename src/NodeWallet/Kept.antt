-- ===== src/NodeWallet/Kept.antt =====
-- What the calls of node/wallet/wallet.go leave alone while a wallet is loaded.
use node_manager_core.Base.{◌≡◌, some}
use node_manager_core.NodeWallet.Local.{LocalManager}
use node_manager_core.NodeWallet.State.{NodeWallet}
use node_manager_core.NodeWallet.Invariant.{
  Call, reloads, deletes_password, restores, masquerades, creates, recovers, sets_password,
}

-- A manager with the key and the transactor of this one is loaded, and the wallet file and the random
-- source are as they were.
pub record IsKept (m : LocalManager) (w v : NodeWallet) : Type 0 where
  pub manager : LocalManager
  pub loaded : v.wallet_manager ≡ some manager
  pub key : manager.node_private_key ≡ m.node_private_key
  pub transactor : manager.transactor ≡ m.transactor
  pub wallet_file : v.wallet_file ≡ w.wallet_file
  pub entropy : v.entropy ≡ w.entropy

-- A reload reads the wallet from disk again.
abbrev pub IsNoReload : Call → Type 0
IsNoReload reloads = ⊥
IsNoReload deletes_password = Unit
IsNoReload restores = Unit
IsNoReload (masquerades a) = Unit
IsNoReload (creates path index password save) = Unit
IsNoReload (recovers path index mnemonic password save test_mode) = Unit
IsNoReload (sets_password password save) = Unit

-- A call that changes none of the fields.
abbrev IsSame : NodeWallet → NodeWallet → Type 0
IsSame w v =
    (v.wallet_manager ≡ w.wallet_manager)
    × (v.wallet_file ≡ w.wallet_file)
    × (v.entropy ≡ w.entropy)
