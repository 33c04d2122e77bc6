-- ===== src/NodeWallet/Restart.antt =====
-- A wallet that was created or recovered (node/wallet/wallet.go) is found again, whole, by a new process
-- over the same files.
use node_manager_core.Base.{ℕ, ◌≡◌, ap, ◌∙◌, String, true, false, none, some, arith}
use node_manager_core.NodeWallet.Files.{Bytes, Library, IsFaithful, File, exists, stat, read, ok}
use node_manager_core.NodeWallet.Local.{LocalManager, new_local_manager, load_wallet, fresh_data}
use node_manager_core.NodeWallet.Local
use node_manager_core.NodeWallet.Local.Loading.{load_wallet_again}
use node_manager_core.NodeWallet.State.{NodeWallet, ◌>>=◌, wrap}
use node_manager_core.NodeWallet.Methods.{
  reload, new_wallet, load_wallet_data, build_local_wallet, address_or_zero,
}
use node_manager_core.NodeWallet.Methods.Building.{written, Builds, build_local_wallet-Builds}

-- The system lets the process look at the file.
abbrev pub IsReadable : {A : Type 0} → File A → Type 0
IsReadable file = (file.stat_refused ≡ false) × (file.read_refused ≡ false)

pub record FilesReadable (w : NodeWallet) : Type 0 where
  pub wallet : IsReadable w.wallet_file
  pub address : IsReadable w.address_file
  pub password : IsReadable w.password_file

written-stat :
    {A : Type 0} (file : File A) (a : A)
    → IsReadable file
    → (stat (written file a) ≡ exists) × (read (written file a) ≡ some a)
unfolding stat read
written-stat file a h = ground arith

module _ (lib : Library) where
  -- What a build wrote loads into the manager that it left.
  Builds-load_wallet_data :
      (path : String) (index : ℕ) (mnemonic password : String) (w w' v : NodeWallet)
      → IsFaithful lib
      → IsReadable w.wallet_file
      → (b : Builds lib path index mnemonic password w w') → v.chain_id ≡ w.chain_id
      → v.wallet_file ≡ written w.wallet_file b.bytes
      → load_wallet_data lib password v ≡ (ok b.manager, v)
  unfolding load_wallet_data
  Builds-load_wallet_data path index mnemonic password w w' v faithful readable b c f = rw (
    f,
    c,
    (written-stat w.wallet_file b.bytes readable).1,
    faithful.unmarshal-marshal _ b.bytes b.marshalled,
    load_wallet_again lib _ _ password b.manager b.wallet_data b.loaded,
  )

  reload_found :
      (v : NodeWallet) (password : String) (m : LocalManager) (bytes : Bytes)
      → stat v.password_file ≡ exists
      → read v.password_file ≡ some password
      → load_wallet_data lib password v ≡ (ok m, v)
      → stat v.address_file ≡ exists
      → read v.address_file ≡ some bytes
      → reload lib v ≡ (
        ok tt,
        record v {
          wallet_manager = some m;
          address = lib.hex_to_address bytes;
          is_address_loaded = true;
        },
      )
  unfolding reload ◌>>=◌ wrap
  reload_found v password m bytes p q l s t = simp (p, q, l, s, t)

  -- The wallet of a new process before it reads the files of `w`.
  abbrev blank_over : NodeWallet → NodeWallet
  blank_over w = record w { wallet_manager = none; address = 0; is_address_loaded = false }

  Builds-reload :
      (path : String) (index : ℕ) (mnemonic password : String) (w w' : NodeWallet)
      → IsFaithful lib
      → FilesReadable w
      → Builds lib path index mnemonic password w w'
      → reload lib (blank_over w') ≡ (ok tt, w')
  Builds-reload path index mnemonic password w w' faithful readable b =
      let a = address_or_zero lib (Local.get_address lib b.manager) in
      let pf : w'.password_file ≡ written w.password_file password =
        ap (λ (x : NodeWallet). x.password_file) b.after in
      let af : w'.address_file ≡ written w.address_file (lib.address_hex a) =
        ap (λ (x : NodeWallet). x.address_file) b.after in
      let wf : w'.wallet_file ≡ written w.wallet_file b.bytes =
        ap (λ (x : NodeWallet). x.wallet_file) b.after in
      let cf : w'.chain_id ≡ w.chain_id = ap (λ (x : NodeWallet). x.chain_id) b.after in
      let (ps, pr) = written-stat w.password_file password readable.password in
      let (as', ar) = written-stat w.address_file (lib.address_hex a) readable.address in
      let found =
        reload_found (blank_over w') password b.manager (lib.address_hex a) (ap stat pf ∙ ps)
          (ap read pf ∙ pr)
          (Builds-load_wallet_data path index mnemonic password w w' (blank_over w') faithful
            readable.wallet b cf wf)
          (ap stat af ∙ as') (ap read af ∙ ar) in
      cc (found, b.after, faithful.hex_to_address-address_hex a)

  -- A wallet that was built and saved with its password is the wallet that a new process finds over
  -- the same files, its manager, address and files all equal: with libraries that keep their
  -- promises, and files that may be read.
  pub new_wallet-build_local_wallet :
      (path : String) (index : ℕ) (mnemonic password : String) (w w' : NodeWallet)
      → IsFaithful lib
      → FilesReadable w
      → build_local_wallet lib path index mnemonic password true false w ≡ (ok tt, w')
      → new_wallet lib w'.chain_id w'.wallet_file w'.address_file w'.password_file w'.entropy
        ≡ (ok tt, w')
  unfolding new_wallet
  new_wallet-build_local_wallet path index mnemonic password w w' faithful readable h =
      Builds-reload path index mnemonic password w w' faithful readable
        (build_local_wallet-Builds lib path index mnemonic password w w' h)
