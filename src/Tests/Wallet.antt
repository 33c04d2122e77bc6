-- ===== src/Tests/Wallet.antt =====
-- node/wallet at concrete inputs.
use node_manager_core.Base.{
  ℕ, ◌≡◌, ◌<◌, refl, String, true, false, none, some, List, [], ◌∷◌, arith, zero, suc,
}
use mathlib.Core.Option
use node_manager_core.Wallet.{LocalWalletData}
use node_manager_core.NodeWallet.Files.{ok, write}
use node_manager_core.NodeWallet.Local.{
  initialize_keystore, get_derived_key, derive_at, LocalManager, load_wallet, new_local_manager,
  with_path,
}
use node_manager_core.NodeWallet.Local
use node_manager_core.NodeWallet.Local.Derivation.{
  index_after, get_derived_key_sound, get_derived_key_complete, Found, Finds,
}
use node_manager_core.NodeWallet.Local.Loading.{load_wallet_again}
use node_manager_core.NodeWallet.State.{NodeWallet, ◌>>=◌, wrap}
use node_manager_core.NodeWallet.Methods.{build_local_wallet, new_wallet}
use node_manager_core.NodeWallet.Api.{
  recover, create_new_local_wallet, generate_new_mnemonic, build_new, set_password,
}
use node_manager_core.NodeWallet.Restart.{FilesReadable}
use node_manager_core.NodeWallet.Recovery.{
  new_wallet-recover, new_wallet-create_new_local_wallet, build_local_wallet-same_key,
}
use node_manager_core.NodeWallet.Invariant.{
  new_wallet-run-IsLive, run, recovers, sets_password, reloads,
}
use node_manager_core.NodeWallet.Keeps.{IsLive}
use node_manager_core.NodeWallet.Errors.{set_password-Unlocks, Unlocks}
use node_manager_core.Tests.Toy.{toy, toy-IsFaithful, new_node}

-- Index 0 of the toy library has an invalid child, so that the wallet is made at index 1.
abbrev master : List ℕ
master = 5 ∷ []

abbrev path : String
path = "m/44'/60'/0'/0/%d"

skips_index : get_derived_key toy 5 master path 0 ≡ ok (1 ∷ 44 ∷ 5 ∷ [], 1)
unfolding get_derived_key derive_at
skips_index = refl

get_derived_key_sound_example : Found toy master path 5 0 (1 ∷ 44 ∷ 5 ∷ []) 1
get_derived_key_sound_example =
    get_derived_key_sound toy master path 5 0 (1 ∷ 44 ∷ 5 ∷ []) 1 skips_index

Finds-second : Finds toy master path 0 1 (1 ∷ 44 ∷ 5 ∷ [])
unfolding index_after derive_at
Finds-second = record { found = refl; skipped = skipped }
  where
    skipped :
        (j : ℕ)
        → j < 1
        → derive_at toy master path (index_after toy master path 0 j) ≡ some Local.invalid
    skipped zero lt = refl
    skipped (suc j) lt = absurd (omega arith)

get_derived_key_complete_example :
    get_derived_key toy 5 master path 0 ≡ ok (1 ∷ 44 ∷ 5 ∷ [], index_after toy master path 0 1)
get_derived_key_complete_example =
    get_derived_key_complete toy master path 5 0 1 (1 ∷ 44 ∷ 5 ∷ []) (omega arith) Finds-second

abbrev old_data : LocalWalletData
old_data = record {
  crypto = 6 ∷ 5 ∷ [];
  name = "toy";
  version = 4;
  uuid = 1;
  derivation_path = "";
  wallet_index = 0;
}

abbrev old_manager : LocalManager
old_manager = record {
  chain_id = 17000;
  seed = [];
  node_private_key = none;
  wallet_data = none;
  transactor = none;
}

load_wallet_again_example :
    load_wallet toy old_manager (load_wallet toy old_manager old_data "secret").2 "secret" ≡ (
      ok tt,
      (load_wallet toy old_manager old_data "secret").1,
      (load_wallet toy old_manager old_data "secret").2,
    )
unfolding load_wallet get_derived_key derive_at
load_wallet_again_example = load_wallet_again toy old_manager old_data "secret" _ _ refl

node_readable : FilesReadable new_node
node_readable = ground arith

-- A node with the wallet of a mnemonic, and one that made its own.
abbrev node : NodeWallet
node = (recover toy "" 0 "seven" "secret" true false new_node).1

abbrev own_node : NodeWallet
own_node = (create_new_local_wallet toy "" 0 "secret" true new_node).1

recovered : recover toy "" 0 "seven" "secret" true false new_node ≡ (ok tt, node)
unfolding recover build_local_wallet ◌>>=◌ wrap initialize_keystore get_derived_key derive_at write
recovered = refl

created : create_new_local_wallet toy "" 0 "secret" true new_node ≡ (ok "seven words", own_node)
unfolding create_new_local_wallet build_new build_local_wallet ◌>>=◌ wrap initialize_keystore
    get_derived_key derive_at write generate_new_mnemonic
created = refl

new_wallet-recover_example :
    new_wallet toy node.chain_id node.wallet_file node.address_file node.password_file node.entropy
    ≡ (ok tt, node)
new_wallet-recover_example =
    new_wallet-recover toy "" 0 "seven" "secret" new_node node toy-IsFaithful node_readable
      recovered

new_wallet-create_new_local_wallet_example :
    new_wallet toy own_node.chain_id own_node.wallet_file own_node.address_file
      own_node.password_file own_node.entropy
    ≡ (ok tt, own_node)
new_wallet-create_new_local_wallet_example =
    new_wallet-create_new_local_wallet toy "" 0 "seven words" "secret" new_node own_node
      toy-IsFaithful node_readable created

abbrev built : String → NodeWallet
built password = (build_local_wallet toy "" 0 "seven" password true false new_node).1

-- The second build is in test mode, and its password is not saved.
abbrev unsaved_node : NodeWallet
unsaved_node = (build_local_wallet toy "" 0 "seven" "other password" false true new_node).1

build_local_wallet-same_key_example :
    (Option.map (λ (m : LocalManager). m.node_private_key) (built "secret").wallet_manager
      ≡ Option.map (λ (m : LocalManager). m.node_private_key) unsaved_node.wallet_manager)
    × ((built "secret").address ≡ unsaved_node.address)
unfolding build_local_wallet ◌>>=◌ wrap initialize_keystore get_derived_key derive_at write
build_local_wallet-same_key_example =
    build_local_wallet-same_key toy "" 0 "seven" "secret" "other password" true false false true
      new_node (built "secret") new_node unsaved_node toy-IsFaithful refl refl

new_wallet-run-IsLive_example : IsLive (
    run toy
      (recovers "" 0 "seven" "secret" true false ∷ sets_password "secret" true ∷ reloads ∷ [])
      (new_wallet toy 17000 new_node.wallet_file new_node.address_file new_node.password_file 0).1)
new_wallet-run-IsLive_example =
    new_wallet-run-IsLive toy
      (recovers "" 0 "seven" "secret" true false ∷ sets_password "secret" true ∷ reloads ∷ []) 17000
      new_node.wallet_file new_node.address_file new_node.password_file 0

-- The wallet is on disk, but no manager is loaded.
abbrev locked : NodeWallet
locked = record node { wallet_manager = none }

set_password-Unlocks_example :
    Unlocks toy "secret" true locked (set_password toy "secret" true locked)
set_password-Unlocks_example = set_password-Unlocks toy "secret" true locked refl
