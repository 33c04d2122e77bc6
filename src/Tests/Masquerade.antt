-- ===== src/Tests/Masquerade.antt =====
-- The addresses and the transactor of node/wallet at concrete inputs.
use node_manager_core.Base.{ℕ, ◌≡◌, ◌↔◌, refl, true, false, none, some, [], ◌∷◌}
use node_manager_core.Wallet.{is_wallet_ready, WalletStatus, local}
use node_manager_core.NodeWallet.Files.{ok, panic, write, stat, TransactOpts}
use node_manager_core.NodeWallet.Local.{LocalManager}
use node_manager_core.NodeWallet.Local
use node_manager_core.NodeWallet.State.{NodeWallet, ◌>>=◌, wrap}
use node_manager_core.NodeWallet.Api.{
  masquerade_as_address, restore_address_to_wallet, get_status, get_transactor, clone_opts,
}
use node_manager_core.NodeWallet.Masquerade.{
  masquerade_restore, restore_panics_iff, get_transactor_iff, Holds,
}
use node_manager_core.Tests.Toy.{toy, new_node}

abbrev opts : TransactOpts
opts = record {
  from = 107;
  signer = (7, 17000);
  nonce = none;
  value = none;
  gas_price = none;
  gas_fee_cap = some 30;
  gas_tip_cap = some 2;
  gas_limit = 0;
  no_send = false;
}

abbrev manager : LocalManager
manager = record {
  chain_id = 17000;
  seed = 5 ∷ [];
  node_private_key = some 7;
  wallet_data = none;
  transactor = some opts;
}

-- A node with its wallet loaded, whose address is 107.
abbrev node : NodeWallet
node = record new_node { wallet_manager = some manager; address = 107; is_address_loaded = true }

node-Holds : Holds toy node 107
unfolding Local.get_address
node-Holds = record { manager = manager; loaded = refl; address = refl }

abbrev masked : NodeWallet
masked = (masquerade_as_address toy 5 node).1

abbrev restored : NodeWallet
restored = (restore_address_to_wallet toy masked).1

abbrev status : NodeWallet → WalletStatus
status w = record {
  node_address = w.address;
  has_address = true;
  type = local;
  is_loaded = true;
  is_on_disk = true;
  wallet_address = 107;
  is_password_saved = false;
}

masquerade_restore_example :
    (is_wallet_ready (status masked) ≡ false)
    × (is_wallet_ready (status restored) ≡ true)
    × (restored.address ≡ 107)
unfolding masquerade_as_address restore_address_to_wallet get_status Local.get_address stat write
    ◌>>=◌ wrap
masquerade_restore_example =
    masquerade_restore toy 5 node masked restored 107 (status masked) (status restored) masked
      restored node-Holds refl refl refl refl

restore_panics_iff_example :
    ((restore_address_to_wallet toy new_node).0 ≡ panic) ↔ (new_node.wallet_manager ≡ none)
restore_panics_iff_example = restore_panics_iff toy new_node

get_transactor_iff_example :
    (get_transactor node ≡ (ok (clone_opts opts), node))
    × ((clone_opts opts ≡ opts) ↔ (opts.gas_tip_cap ≡ none))
    × ((c : ℕ) → opts.gas_tip_cap ≡ some c → (clone_opts opts).gas_fee_cap ≡ some c)
get_transactor_iff_example = get_transactor_iff node manager opts refl refl
