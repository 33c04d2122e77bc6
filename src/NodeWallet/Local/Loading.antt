-- ===== src/NodeWallet/Local/Loading.antt =====
-- What a successful `LoadWallet` (local-wallet-manager.go) went through, and that it can be repeated.
use node_manager_core.Base.{
  ℕ, ◌≡◌, refl, ap, sym, ◌∙◌, String, Option, none, some, arith, inl, inr, Bool-cases,
}
use text.Mathlib.Text.{◌==◌ as str_eq}
use node_manager_core.Wallet.{LocalWalletData}
use node_manager_core.NodeWallet.Files.{Bytes, Library, TransactOpts, Result, ok, err, panic}
use node_manager_core.NodeWallet.Local.{
  LocalManager, Loaded, get_derived_key, with_path, load_wallet, load_seed, load_master,
  load_derived, store_key, store_transactor, after_load, load_encrypted, fresh_data,
  initialize_keystore,
}
use node_manager_core.NodeWallet.Local.Derivation.{get_derived_key_again}

-- The data with its path and an index filled in is not changed by filling in the path again.
with_path-filled :
    (d : LocalWalletData) (j : ℕ)
    → with_path (record (with_path d) { wallet_index = j })
      ≡ record (with_path d) { wallet_index = j }
unfolding with_path
with_path-filled d j = elim (Bool-cases (str_eq d.derivation_path "")) [
  | inl e ↦ rw e
  | inr e ↦ rw (e, e)
]

crypto-with_path : (d : LocalWalletData) → (with_path d).crypto ≡ d.crypto
unfolding with_path
crypto-with_path d = ground arith

module _ (lib : Library) where
  -- All that a successful load computed, from the data `d` that it was handed.
  pub record Loads (m : LocalManager) (d : LocalWalletData) (password : String) (m' : LocalManager)
      (d' : LocalWalletData) : Type 0 where
    pub seed : Bytes
    pub master : Bytes
    pub key : Bytes
    pub index : ℕ
    pub private_key : ℕ
    pub transactor : TransactOpts
    pub decrypted : lib.decrypt d.crypto password ≡ some seed
    pub mastered : lib.new_master seed ≡ some master
    pub derived :
        get_derived_key lib lib.stack_depth master
          (with_path d).derivation_path
          (with_path d).wallet_index
        ≡ ok (key, index)
    pub keyed : lib.ec_priv_key key ≡ some private_key
    pub signed : lib.keyed_transactor private_key m.chain_id ≡ some transactor
    pub data_after : d' ≡ record (with_path d) { wallet_index = index }
    pub manager_after : m' ≡ record m {
      seed = seed;
      node_private_key = some private_key;
      wallet_data = some d';
      transactor = some transactor;
    }

  module _ (m : LocalManager) (d : LocalWalletData) (password : String) (m' : LocalManager)
      (d' : LocalWalletData) where
    transactor_stage :
        (seed master key : Bytes) (index private_key : ℕ) (o : Option TransactOpts)
        → lib.decrypt d.crypto password ≡ some seed
        → lib.new_master seed ≡ some master
        → get_derived_key lib lib.stack_depth master
            (with_path d).derivation_path
            (with_path d).wallet_index
          ≡ ok (key, index)
        → lib.ec_priv_key key ≡ some private_key
        → lib.keyed_transactor private_key m.chain_id ≡ o
        → store_transactor lib m (record (with_path d) { wallet_index = index }) seed private_key o
          ≡ (ok tt, m', d')
        → Loads m d password m' d'
    unfolding store_transactor
    transactor_stage seed master key index private_key none p q r s t h = cc
    transactor_stage seed master key index private_key (some x) p q r s t h = record {
      seed = seed;
      master = master;
      key = key;
      index = index;
      private_key = private_key;
      transactor = x;
      decrypted = p;
      mastered = q;
      derived = r;
      keyed = s;
      signed = t;
      data_after = cc;
      manager_after = cc;
    }

    key_stage :
        (seed master key : Bytes) (index : ℕ) (o : Option ℕ)
        → lib.decrypt d.crypto password ≡ some seed
        → lib.new_master seed ≡ some master
        → get_derived_key lib lib.stack_depth master
            (with_path d).derivation_path
            (with_path d).wallet_index
          ≡ ok (key, index)
        → lib.ec_priv_key key ≡ o
        → store_key lib m (record (with_path d) { wallet_index = index }) seed o ≡ (ok tt, m', d')
        → Loads m d password m' d'
    unfolding store_key
    key_stage seed master key index none p q r s h = cc
    key_stage seed master key index (some k) p q r s h =
        transactor_stage seed master key index k _ p q r s refl h

    derived_stage :
        (seed master : Bytes) (r : Result (Bytes × ℕ))
        → lib.decrypt d.crypto password ≡ some seed
        → lib.new_master seed ≡ some master
        → get_derived_key lib lib.stack_depth master
            (with_path d).derivation_path
            (with_path d).wallet_index
          ≡ r
        → load_derived lib m (with_path d) seed r ≡ (ok tt, m', d')
        → Loads m d password m' d'
    unfolding load_derived
    derived_stage seed master (err e) p q r h = cc
    derived_stage seed master panic p q r h = cc
    derived_stage seed master (ok (key, index)) p q r h =
        key_stage seed master key index _ p q r refl h

    master_stage :
        (seed : Bytes) (o : Option Bytes)
        → lib.decrypt d.crypto password ≡ some seed
        → lib.new_master seed ≡ o
        → load_master lib m d seed o ≡ (ok tt, m', d')
        → Loads m d password m' d'
    unfolding load_master
    master_stage seed none p q h = cc
    master_stage seed (some master) p q h = derived_stage seed master _ p q refl h

    seed_stage :
        (o : Option Bytes)
        → lib.decrypt d.crypto password ≡ o
        → load_seed lib m d o ≡ (ok tt, m', d')
        → Loads m d password m' d'
    unfolding load_seed
    seed_stage none p h = cc
    seed_stage (some seed) p h = master_stage seed _ p refl h

    pub load_wallet-Loads :
        load_wallet lib m d password ≡ (ok tt, m', d') → Loads m d password m' d'
    unfolding load_wallet
    load_wallet-Loads h = seed_stage _ refl h

  -- The converse: those computations make a load succeed.
  pub Loads-load_wallet :
      (m : LocalManager) (d : LocalWalletData) (password : String) (m' : LocalManager)
      (d' : LocalWalletData)
      → Loads m d password m' d'
      → load_wallet lib m d password ≡ (ok tt, m', d')
  unfolding load_wallet
  Loads-load_wallet m d password m' d' l =
      rw (l.decrypted, l.mastered, l.derived, l.keyed, l.signed)
        (cc (l.manager_after, l.data_after))

  Loads-again :
      (m : LocalManager) (d : LocalWalletData) (password : String) (m' : LocalManager)
      (d' : LocalWalletData)
      → Loads m d password m' d'
      → Loads m d' password m' d'
  Loads-again m d password m' d' l =
      let filled : with_path d' ≡ d' =
        ap with_path l.data_after ∙ with_path-filled d l.index ∙ sym l.data_after in
      let path : (with_path d').derivation_path ≡ (with_path d).derivation_path =
        ap (λ (x : LocalWalletData). x.derivation_path) (filled ∙ l.data_after) in
      let at : (with_path d').wallet_index ≡ l.index =
        ap (λ (x : LocalWalletData). x.wallet_index) (filled ∙ l.data_after) in
      record {
        seed = l.seed;
        master = l.master;
        key = l.key;
        index = l.index;
        private_key = l.private_key;
        transactor = l.transactor;
        decrypted = cc (crypto-with_path d, l.data_after, l.decrypted);
        mastered = l.mastered;
        derived =
            rw (path, at)
              (get_derived_key_again lib l.master (with_path d).derivation_path lib.stack_depth
                (with_path d).wallet_index l.key l.index l.derived);
        keyed = l.keyed;
        signed = l.signed;
        data_after = cc (filled, l.data_after);
        manager_after = l.manager_after;
      }

  -- The data that a load leaves, its path and index filled in, loads into the same manager with the
  -- same password, and is not changed any more.
  pub load_wallet_again :
      (m : LocalManager) (d : LocalWalletData) (password : String) (m' : LocalManager)
      (d' : LocalWalletData)
      → load_wallet lib m d password ≡ (ok tt, m', d')
      → load_wallet lib m d' password ≡ (ok tt, m', d')
  load_wallet_again m d password m' d' h =
      Loads-load_wallet m d' password m' d'
        (Loads-again m d password m' d' (load_wallet-Loads m d password m' d' h))

  after_load-ok :
      (r : Loaded) (d : LocalWalletData) (m' : LocalManager)
      → after_load lib r ≡ (ok d, m')
      → r ≡ (ok tt, m', d)
  unfolding after_load
  after_load-ok (ok u, m, d₀) d m' h = cc
  after_load-ok (err e, m, d₀) d m' h = cc
  after_load-ok (panic, m, d₀) d m' h = cc

  -- A new keystore is one that was encrypted and then loaded.
  pub initialize_keystore-ok :
      (m : LocalManager) (fresh : ℕ) (path : String) (index : ℕ) (mnemonic password : String)
      (d : LocalWalletData) (m' : LocalManager)
      → initialize_keystore lib m fresh path index mnemonic password ≡ (ok d, m')
      → (text : Bytes) × (lib.encrypt fresh (lib.new_seed mnemonic) password ≡ some text)
        × (load_wallet lib m (fresh_data lib fresh path index text) password ≡ (ok tt, m', d))
  unfolding initialize_keystore
  initialize_keystore-ok m fresh path index mnemonic password d m' h =
      go (lib.encrypt fresh (lib.new_seed mnemonic) password) refl h
    where
      go :
          (o : Option Bytes)
          → lib.encrypt fresh (lib.new_seed mnemonic) password ≡ o
          → load_encrypted lib m fresh path index password o ≡ (ok d, m')
          → (text : Bytes) × (lib.encrypt fresh (lib.new_seed mnemonic) password ≡ some text)
            × (load_wallet lib m (fresh_data lib fresh path index text) password ≡ (ok tt, m', d))
      go none e h = cc
      go (some text) e h = (text, e, after_load-ok _ d m' h)
