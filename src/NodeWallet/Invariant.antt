-- ===== src/NodeWallet/Invariant.antt =====
-- What holds of a node wallet after any sequence of calls of the methods of node/wallet/wallet.go.
use node_manager_core.Base.{ℕ, String, Bool, List, [], ◌∷◌}
use node_manager_core.Wallet.{Address}
use node_manager_core.NodeWallet.Files.{Library, File, Bytes}
use node_manager_core.NodeWallet.State.{NodeWallet, delete_password}
use node_manager_core.NodeWallet.Methods.{reload, new_wallet}
use node_manager_core.NodeWallet.Api.{
  masquerade_as_address, restore_address_to_wallet, create_new_local_wallet, recover, set_password,
}
use node_manager_core.NodeWallet.Keeps.{IsLive}
use node_manager_core.NodeWallet.Keeps.Parts

-- The calls that change a wallet.
pub data Call : Type 0 where
  reloads deletes_password restores : Call
  masquerades : Address → Call
  creates : String → ℕ → String → Bool → Call
  recovers : String → ℕ → String → String → Bool → Bool → Call
  sets_password : String → Bool → Call

module _ (lib : Library) where
  unfoldable pub step : Call → NodeWallet → NodeWallet
  step reloads w = (reload lib w).1
  step deletes_password w = (delete_password w).1
  step restores w = (restore_address_to_wallet lib w).1
  step (masquerades a) w = (masquerade_as_address lib a w).1
  step (creates path index password save) w =
      (create_new_local_wallet lib path index password save w).1
  step (recovers path index mnemonic password save test_mode) w =
      (recover lib path index mnemonic password save test_mode w).1
  step (sets_password password save) w = (set_password lib password save w).1

  unfoldable pub run : List Call → NodeWallet → NodeWallet
  run [] w = w
  run (c ∷ cs) w = run cs (step c w)

  step-IsLive : (c : Call) (w : NodeWallet) → IsLive w → IsLive (step c w)
  unfolding step
  step-IsLive reloads w h = (Parts.reload-Keeps lib).at w h
  step-IsLive deletes_password w h = (Parts.delete_password-Keeps lib).at w h
  step-IsLive restores w h = (Parts.restore_address_to_wallet-Keeps lib).at w h
  step-IsLive (masquerades a) w h = (Parts.masquerade_as_address-Keeps lib a).at w h
  step-IsLive (creates path index password save) w h =
      (Parts.create_new_local_wallet-Keeps lib path index password save).at w h
  step-IsLive (recovers path index mnemonic password save test_mode) w h =
      (Parts.recover-Keeps lib path index mnemonic password save test_mode).at w h
  step-IsLive (sets_password password save) w h =
      (Parts.set_password-Keeps lib password save).at w h

  pub run-IsLive : (cs : List Call) (w : NodeWallet) → IsLive w → IsLive (run cs w)
  unfolding run
  run-IsLive [] w h = h
  run-IsLive (c ∷ cs) w h = run-IsLive cs (step c w) (step-IsLive c w h)

  -- After a start over any files, and any calls, a loaded wallet manager has its key, its data and its
  -- transactor: nothing that it is asked for fails because the manager is not initialized.
  pub new_wallet-run-IsLive :
      (cs : List Call) (chain : ℕ) (wallet_file address_file : File Bytes)
      (password_file : File String) (entropy : ℕ)
      → IsLive (run cs (new_wallet lib chain wallet_file address_file password_file entropy).1)
  unfolding new_wallet
  new_wallet-run-IsLive cs chain wallet_file address_file password_file entropy =
      run-IsLive cs _ ((Parts.reload-Keeps lib).at _ (λ m e. cc))
