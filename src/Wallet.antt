-- ===== src/Wallet.antt =====
-- wallet/types.go and wallet/utils.go: the data of a node wallet as it is kept on disk, the status that
-- is reported of it, and the derivation paths.
use text.Mathlib.Text.{◌==◌ as str_eq}
use node_manager_core.Base.{ℕ, String, Bool, Option, none, some, ◌&&◌, ◌==◌, if◌then◌else◌, List}

-- `common.Address`, by its 160 bits as a number; the zero value of the type is 0.
abbrev pub Address : Type 0
Address = ℕ

abbrev pub default_node_key_path : String
default_node_key_path = "m/44'/60'/0'/0/%d"

abbrev pub ledger_live_node_key_path : String
ledger_live_node_key_path = "m/44'/60'/%d/0/0"

abbrev pub my_ether_wallet_node_key_path : String
my_ether_wallet_node_key_path = "m/44'/60'/0'/%d"

-- A `WalletType` is any text in a file; the source names three of them.
pub data WalletType : Type 0 where
  unknown local hardware : WalletType
  unnamed : String → WalletType

-- The encrypted seed, a JSON object, is kept by the bytes of its text.
pub record LocalWalletData : Type 0 where
  pub crypto : List ℕ
  pub name : String
  pub version : ℕ
  pub uuid : ℕ
  pub derivation_path : String
  pub wallet_index : ℕ

pub record WalletData : Type 0 where
  pub type : WalletType
  pub local_data : LocalWalletData

pub record WalletStatus : Type 0 where
  pub node_address : Address
  pub has_address : Bool
  pub type : WalletType
  pub is_loaded : Bool
  pub is_on_disk : Bool
  pub wallet_address : Address
  pub is_password_saved : Bool

unfoldable pub is_wallet_ready : WalletStatus → Bool
is_wallet_ready status =
    status.has_address && status.is_loaded && status.node_address == status.wallet_address

-- `none` is the error for a text that is no derivation path type.
unfoldable pub get_derivation_path : String → Option String
get_derivation_path path_type =
    if str_eq path_type ""
    then some default_node_key_path
    else if str_eq path_type "ledger-live"
    then some ledger_live_node_key_path
    else if str_eq path_type "mew"
    then some my_ether_wallet_node_key_path
    else none
