-- ===== src/NodeWallet/Methods/Loading.antt =====
-- What a successful `loadWalletData` (node/wallet/wallet.go) read and loaded.
use node_manager_core.Base.{◌≡◌, refl, String, Option, none, some, ℕ}
use node_manager_core.Wallet.{
  WalletType, unknown, local, hardware, unnamed, LocalWalletData, WalletData,
}
use node_manager_core.NodeWallet.Files.{Bytes, Library, ok, err, panic, read}
use node_manager_core.NodeWallet.Local.{LocalManager, Loaded, load_wallet, new_local_manager}
use node_manager_core.NodeWallet.State.{NodeWallet}
use node_manager_core.NodeWallet.Methods.{
  loaded_manager, load_type, load_parsed, load_bytes, load_wallet_data,
}

module _ (lib : Library) where
  -- The wallet's file holds a local wallet, which loads into the manager with the password.
  pub record LoadsFile (password : String) (w : NodeWallet) (m : LocalManager) : Type 0 where
    pub bytes : Bytes
    pub data_read : WalletData
    pub data_after : LocalWalletData
    pub on_disk : read w.wallet_file ≡ some bytes
    pub parsed : lib.unmarshal bytes ≡ some data_read
    pub is_local : data_read.type ≡ local
    pub loaded :
        load_wallet lib (new_local_manager w.chain_id) data_read.local_data password
        ≡ (ok tt, m, data_after)

  loaded_manager-ok :
      (r : Loaded) (m : LocalManager)
      → loaded_manager lib r ≡ ok m
      → (d : LocalWalletData) × (r ≡ (ok tt, m, d))
  unfolding loaded_manager
  loaded_manager-ok (ok u, m', d) m h = (d, cc)
  loaded_manager-ok (err e, m', d) m h = cc
  loaded_manager-ok (panic, m', d) m h = cc

  type_stage :
      (t : WalletType) (chain : ℕ) (d : LocalWalletData) (password : String) (m : LocalManager)
      → load_type lib chain d password t ≡ ok m
      → (t ≡ local)
        × (loaded_manager lib (load_wallet lib (new_local_manager chain) d password) ≡ ok m)
  unfolding load_type
  type_stage local chain d password m h = (refl, h)
  type_stage unknown chain d password m h = cc
  type_stage hardware chain d password m h = cc
  type_stage (unnamed text) chain d password m h = cc

  module _ (password : String) (w : NodeWallet) (m : LocalManager) where
    parsed_stage :
        (bytes : Bytes) (o : Option WalletData)
        → read w.wallet_file ≡ some bytes
        → lib.unmarshal bytes ≡ o
        → load_parsed lib w.chain_id password o ≡ ok m
        → LoadsFile password w m
    unfolding load_parsed
    parsed_stage bytes none p q h = cc
    parsed_stage bytes (some d) p q h =
        let (l, k) = type_stage d.type w.chain_id d.local_data password m h in
        let (d', e) = loaded_manager-ok _ m k in
        record {
          bytes = bytes;
          data_read = d;
          data_after = d';
          on_disk = p;
          parsed = q;
          is_local = l;
          loaded = e;
        }

    bytes_stage :
        (o : Option Bytes)
        → read w.wallet_file ≡ o
        → load_bytes lib w.chain_id password o ≡ ok m
        → LoadsFile password w m
    unfolding load_bytes
    bytes_stage none p h = cc
    bytes_stage (some bytes) p h = parsed_stage bytes _ p refl h

    pub load_wallet_data-LoadsFile :
        (v : NodeWallet) → load_wallet_data lib password w ≡ (ok m, v) → LoadsFile password w m
    unfolding load_wallet_data
    load_wallet_data-LoadsFile v h = bytes_stage _ refl (cc)
