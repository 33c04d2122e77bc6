-- ===== src/Tests/Toy.antt =====
-- A small library for node/wallet: its encryption checks the password's length, its files hold
-- wallets of one name and path, and child 0 of every key is invalid.
use text.Mathlib.Text.{◌==◌ as str_eq}
use text.Mathlib.TextEquality.{eq_iff}
use Prim.Native.String.{len}
use node_manager_core.Base.{
  ℕ, ◌+◌, ◌≡◌, refl, String, true, false, Option, none, some, [], ◌∷◌, arith, if◌then◌else◌, ◌==◌,
  ◌&&◌, ==-self,
}
use node_manager_core.Wallet.{
  Address, WalletData, WalletType, LocalWalletData, local, unknown, hardware, unnamed,
  default_node_key_path,
}
use node_manager_core.NodeWallet.Files.{
  Bytes, File, Child, child, invalid_child, Library, IsFaithful,
}
use node_manager_core.NodeWallet.State.{NodeWallet}

abbrev toy_decrypt : Bytes → String → Option Bytes
toy_decrypt [] password = none
toy_decrypt (n ∷ seed) password = if n == len password then some seed else none

abbrev toy_derive : Bytes → ℕ → Child
toy_derive key n = if n == 0 then invalid_child else child (n ∷ key)

abbrev toy_data : LocalWalletData → Option Bytes
toy_data d =
    if str_eq d.name "toy" && str_eq d.derivation_path default_node_key_path
    then some (d.uuid ∷ d.wallet_index ∷ d.version ∷ d.crypto)
    else none

abbrev toy_type : WalletType → LocalWalletData → Option Bytes
toy_type local d = toy_data d
toy_type unknown d = none
toy_type hardware d = none
toy_type (unnamed t) d = none

abbrev toy_marshal : WalletData → Option Bytes
toy_marshal d = toy_type d.type d.local_data

abbrev toy_unmarshal : Bytes → Option WalletData
toy_unmarshal (u ∷ i ∷ v ∷ c) = some (record {
  type = local;
  local_data = record {
    crypto = c;
    name = "toy";
    version = v;
    uuid = u;
    derivation_path = default_node_key_path;
    wallet_index = i;
  };
})
toy_unmarshal _ = none

abbrev toy_head : Bytes → Address
toy_head [] = 0
toy_head (a ∷ bytes) = a

abbrev toy_key : Bytes → Option ℕ
toy_key [] = none
toy_key (k ∷ bytes) = some k

abbrev pub toy : Library
toy = record {
  is_mnemonic_valid = λ text. true;
  new_mnemonic = λ n. some "seven words";
  new_seed = λ text. len text ∷ 9 ∷ [];
  encrypt = λ salt seed password. some (len password ∷ seed);
  decrypt = toy_decrypt;
  encryptor_name = "toy";
  encryptor_version = 4;
  new_uuid = λ n. n + 1000;
  new_master = λ seed. some seed;
  parse_path = λ path index. some (44 ∷ index ∷ []);
  derive = toy_derive;
  ec_priv_key = toy_key;
  keyed_transactor = λ key chain. some (record {
    from = key + 100;
    signer = (key, chain);
    nonce = none;
    value = none;
    gas_price = none;
    gas_fee_cap = none;
    gas_tip_cap = none;
    gas_limit = 0;
    no_send = false;
  });
  pubkey_to_address = λ key. key + 100;
  marshal = toy_marshal;
  unmarshal = toy_unmarshal;
  address_hex = λ a. a ∷ [];
  hex_to_address = toy_head;
  stack_depth = 5;
}

toy_encrypted :
    (salt : ℕ) (seed : Bytes) (password : String) (text : Bytes)
    → toy.encrypt salt seed password ≡ some text
    → toy.decrypt text password ≡ some seed
toy_encrypted salt seed password text h = ground (arith, ==-self (len password))

toy_data-marshalled :
    (d : LocalWalletData) (b : Bytes)
    → toy_data d ≡ some b
    → toy_unmarshal b ≡ some (record { type = local; local_data = d })
toy_data-marshalled d b h =
    ground (arith, eq_iff d.name "toy", eq_iff d.derivation_path default_node_key_path)

toy_marshalled : (d : WalletData) (b : Bytes) → toy_marshal d ≡ some b → toy_unmarshal b ≡ some d
toy_marshalled d b h = go d.type d.local_data h
  where
    go :
        (t : WalletType) (l : LocalWalletData)
        → toy_type t l ≡ some b
        → toy_unmarshal b ≡ some (record { type = t; local_data = l })
    go local l h = toy_data-marshalled l b h
    go unknown l h = cc
    go hardware l h = cc
    go (unnamed t) l h = cc

pub toy-IsFaithful : IsFaithful toy
toy-IsFaithful = record {
  decrypt-encrypt = toy_encrypted;
  unmarshal-marshal = toy_marshalled;
  hex_to_address-address_hex = λ a. refl;
}

abbrev pub no_file : {A : Type 0} → File A
no_file = record {
  content = none;
  stat_refused = false;
  read_refused = false;
  write_refused = false;
  remove_refused = false;
  left_behind = none;
}

-- A node before it has a wallet.
abbrev pub new_node : NodeWallet
new_node = record {
  wallet_manager = none;
  address = 0;
  is_address_loaded = false;
  chain_id = 17000;
  wallet_file = no_file;
  address_file = no_file;
  password_file = no_file;
  entropy = 0;
}
