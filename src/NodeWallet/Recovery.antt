-- ===== src/NodeWallet/Recovery.antt =====
-- Creating and recovering a wallet (`CreateNewLocalWallet` and `Recover` of node/wallet/wallet.go): what
-- a later process finds, and that the mnemonic alone decides the node's key.
use mathlib.Core.Option
use node_manager_core.Base.{ℕ, suc, ◌≡◌, refl, ap, sym, ◌∙◌, String, Bool, true, false, some, arith}
use node_manager_core.Wallet.{LocalWalletData}
use node_manager_core.NodeWallet.Files.{Bytes, Library, IsFaithful, ok}
use node_manager_core.NodeWallet.Local.{LocalManager, new_local_manager, fresh_data, with_path}
use node_manager_core.NodeWallet.Local
use node_manager_core.NodeWallet.Local.Loading.{Loads, load_wallet-Loads}
use node_manager_core.NodeWallet.State.{NodeWallet, ◌>>=◌, next, wrap, pure}
use node_manager_core.NodeWallet.Methods.{new_wallet, build_local_wallet, address_or_zero}
use node_manager_core.NodeWallet.Methods.Building.{next-ok, relabel-ok}
use node_manager_core.NodeWallet.Methods.Made.{Makes, build_local_wallet-Makes}
use node_manager_core.NodeWallet.Api.{
  create_new_local_wallet, recover, build_new, generate_new_mnemonic,
}
use node_manager_core.NodeWallet.Restart.{FilesReadable, new_wallet-build_local_wallet}

module _ (lib : Library) where
  recover-build :
      (path : String) (index : ℕ) (mnemonic password : String) (w w' : NodeWallet)
      → recover lib path index mnemonic password true false w ≡ (ok tt, w')
      → build_local_wallet lib path index mnemonic password true false w ≡ (ok tt, w')
  unfolding recover
  recover-build path index mnemonic password w w' h = ground arith

  generate-ok :
      (w v : NodeWallet) (mnemonic : String)
      → generate_new_mnemonic lib w ≡ (ok mnemonic, v)
      → v ≡ record w { entropy = suc w.entropy }
  unfolding generate_new_mnemonic
  generate-ok w v mnemonic h = ground arith

  built :
      (path : String) (index : ℕ) (password text mnemonic : String) (v w' : NodeWallet)
      → build_new lib path index password true text v ≡ (ok mnemonic, w')
      → build_local_wallet lib path index mnemonic password true false v ≡ (ok tt, w')
  unfolding build_new ◌>>=◌ wrap
  built path index password text mnemonic v w' h =
      let (u, x, e, h') =
        next-ok (λ _. pure text)
          (wrap "error initializing new wallet keystore"
            (build_local_wallet lib path index text password true false) v)
          mnemonic w' h in
      let e' = relabel-ok _ _ u x e in cc

  create-build :
      (path : String) (index : ℕ) (mnemonic password : String) (w w' : NodeWallet)
      → create_new_local_wallet lib path index password true w ≡ (ok mnemonic, w')
      → build_local_wallet lib path index mnemonic password true false
          (record w { entropy = suc w.entropy })
        ≡ (ok tt, w')
  unfolding create_new_local_wallet ◌>>=◌
  create-build path index mnemonic password w w' h =
      let h' : next (build_new lib path index password true) (generate_new_mnemonic lib w)
          ≡ (ok mnemonic, w') =
        ground arith in
      let (text, v, e, k) =
        next-ok (build_new lib path index password true) (generate_new_mnemonic lib w) mnemonic w'
          h' in
      rw (sym (generate-ok w v text e)) (built path index password text mnemonic v w' k)

  -- A wallet that was created, its password saved, is found again whole by a new process over the same
  -- files.
  pub new_wallet-create_new_local_wallet :
      (path : String) (index : ℕ) (mnemonic password : String) (w w' : NodeWallet)
      → IsFaithful lib
      → FilesReadable w
      → create_new_local_wallet lib path index password true w ≡ (ok mnemonic, w')
      → new_wallet lib w'.chain_id w'.wallet_file w'.address_file w'.password_file w'.entropy
        ≡ (ok tt, w')
  new_wallet-create_new_local_wallet path index mnemonic password w w' faithful readable h =
      new_wallet-build_local_wallet lib path index mnemonic password _ w' faithful
        (record {
          wallet = readable.wallet;
          address = readable.address;
          password = readable.password;
        })
        (create-build path index mnemonic password w w' h)

  -- A wallet that was recovered from a mnemonic, its password saved, is found again whole by a new
  -- process over the same files.
  pub new_wallet-recover :
      (path : String) (index : ℕ) (mnemonic password : String) (w w' : NodeWallet)
      → IsFaithful lib
      → FilesReadable w
      → recover lib path index mnemonic password true false w ≡ (ok tt, w')
      → new_wallet lib w'.chain_id w'.wallet_file w'.address_file w'.password_file w'.entropy
        ≡ (ok tt, w')
  new_wallet-recover path index mnemonic password w w' faithful readable h =
      new_wallet-build_local_wallet lib path index mnemonic password w w' faithful readable
        (recover-build path index mnemonic password w w' h)

  -- What two loads of one seed with one path and index compute.
  same_key :
      (m n : LocalManager) (c d : LocalWalletData) (p q : String) (m' n' : LocalManager)
      (c' d' : LocalWalletData) (k : Loads lib m c p m' c') (l : Loads lib n d q n' d')
      → k.seed ≡ l.seed
      → (with_path c).derivation_path ≡ (with_path d).derivation_path
      → (with_path c).wallet_index ≡ (with_path d).wallet_index
      → k.private_key ≡ l.private_key
  same_key m n c d p q m' n' c' d' k l s e f =
      cc (k.mastered, k.derived, k.keyed, l.mastered, l.derived, l.keyed)

  same_path :
      (c d : LocalWalletData)
      → c.derivation_path ≡ d.derivation_path
      → c.wallet_index ≡ d.wallet_index
      → ((with_path c).derivation_path ≡ (with_path d).derivation_path)
        × ((with_path c).wallet_index ≡ (with_path d).wallet_index)
  unfolding with_path
  same_path c d e f = ground arith

  -- The seed that a load decrypts is the one that was encrypted.
  same_seed :
      (fresh : ℕ) (seed : Bytes) (password : String) (text : Bytes) (path : String) (index : ℕ)
      (m m' : LocalManager) (d : LocalWalletData)
      → IsFaithful lib
      → lib.encrypt fresh seed password ≡ some text
      → (l : Loads lib m (fresh_data lib fresh path index text) password m' d) → l.seed ≡ seed
  unfolding fresh_data
  same_seed fresh seed password text path index m m' d faithful e l =
      cc (l.decrypted, faithful.decrypt-encrypt fresh seed password text e)

  -- The key of a built wallet follows from its mnemonic, derivation path and index alone.
  built_key :
      (path : String) (index : ℕ) (mnemonic p q : String) (w w' v v' : NodeWallet)
      → IsFaithful lib
      → (k : Makes lib path index mnemonic p w w') → (l : Makes lib path index mnemonic q v v')
      → k.manager.node_private_key ≡ l.manager.node_private_key
  unfolding fresh_data
  built_key path index mnemonic p q w w' v v' faithful k l =
      let a = load_wallet-Loads lib _ _ p k.manager k.wallet_data k.loaded in
      let b = load_wallet-Loads lib _ _ q l.manager l.wallet_data l.loaded in
      let (e, f) =
        same_path (fresh_data lib w.entropy path index k.text)
          (fresh_data lib v.entropy path index l.text) refl refl in
      let seeds : a.seed ≡ b.seed =
        same_seed w.entropy (lib.new_seed mnemonic) p k.text path index _ _ _ faithful k.encrypted a
        ∙ sym (
            same_seed v.entropy (lib.new_seed mnemonic) q l.text path index _ _ _ faithful
              l.encrypted b) in
      ap (λ (x : LocalManager). x.node_private_key) a.manager_after
      ∙ ap some (same_key _ _ _ _ p q _ _ _ _ a b seeds e f)
      ∙ sym (ap (λ (x : LocalManager). x.node_private_key) b.manager_after)

  -- Two wallets that were built from one mnemonic with the same derivation path and index, on any two
  -- machines, with any two passwords, saved or not and in test mode or not, hold the same private key and
  -- have the same address, if the libraries behave as documented.
  pub build_local_wallet-same_key :
      (path : String) (index : ℕ) (mnemonic p q : String) (save test_mode save' test_mode' : Bool)
      (w w' v v' : NodeWallet)
      → IsFaithful lib
      → build_local_wallet lib path index mnemonic p save test_mode w ≡ (ok tt, w')
      → build_local_wallet lib path index mnemonic q save' test_mode' v ≡ (ok tt, v')
      → (Option.map (λ (m : LocalManager). m.node_private_key) w'.wallet_manager
          ≡ Option.map (λ (m : LocalManager). m.node_private_key) v'.wallet_manager)
        × (w'.address ≡ v'.address)
  unfolding Local.get_address
  build_local_wallet-same_key path index mnemonic p q s t s' t' w w' v v' faithful h h' =
      let k = build_local_wallet-Makes lib path index mnemonic p s t w w' h in
      let l = build_local_wallet-Makes lib path index mnemonic q s' t' v v' h' in
      let e = built_key path index mnemonic p q w w' v v' faithful k l in
      let addresses : Local.get_address lib k.manager ≡ Local.get_address lib l.manager = cc in
      (
        rw (k.has_manager, l.has_manager) (ap some e),
        k.has_address ∙ ap (address_or_zero lib) addresses ∙ sym l.has_address,
      )
