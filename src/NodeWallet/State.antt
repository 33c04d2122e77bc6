-- ===== src/NodeWallet/State.antt =====
-- The state of node/wallet/wallet.go, and its address and password managers (address-manager.go,
-- password-manager.go): three files on disk, the cached node address and the loaded wallet manager.
-- Each exported method of the wallet holds its lock from the first line to the last, so that a method
-- is one step from state to state.
use node_manager_core.Base.{ℕ, String, Bool, true, false, Option, none, some}
use node_manager_core.Wallet.{Address}
use node_manager_core.NodeWallet.Files.{
  Bytes, WalletError, other, wrapped, Result, ok, err, panic, File, Stat, not_exist, failed, exists,
  stat, read, write, remove, Library,
}
use node_manager_core.NodeWallet.Local.{LocalManager}

-- `address` and `is_address_loaded` are the address manager's fields. The only wallet manager in the
-- source is the local one. `entropy` counts the uses of the random source.
pub record NodeWallet : Type 0 where
  pub wallet_manager : Option LocalManager
  pub address : Address
  pub is_address_loaded : Bool
  pub chain_id : ℕ
  pub wallet_file : File Bytes
  pub address_file : File Bytes
  pub password_file : File String
  pub entropy : ℕ

-- A method: from a wallet to its result and the wallet that it leaves.
abbrev pub Method : Type 0 → Type 0
Method A = NodeWallet → Result A × NodeWallet

abbrev pub pure : {A : Type 0} → A → Method A
pure a w = (ok a, w)

abbrev pub fail : {A : Type 0} → WalletError → Method A
fail e w = (err e, w)

abbrev pub next : {A B : Type 0} → (A → Method B) → Result A × NodeWallet → Result B × NodeWallet
next f (ok a, w) = f a w
next f (err e, w) = (err e, w)
next f (panic, w) = (panic, w)

infixl 5 ◌>>=◌ ◌>>◌
unfoldable pub ◌>>=◌ : {A B : Type 0} → Method A → (A → Method B) → Method B
◌>>=◌ m f w = next f (m w)

abbrev pub ◌>>◌ : {B : Type 0} → Method (Unit {0}) → Method B → Method B
m >> k = m >>= λ _. k

-- `fmt.Errorf("...: %w", err)` on the error of a call.
abbrev pub relabel : {A : Type 0} → String → Result A × NodeWallet → Result A × NodeWallet
relabel text (ok a, w) = (ok a, w)
relabel text (err e, w) = (err (wrapped text e), w)
relabel text (panic, w) = (panic, w)

unfoldable pub wrap : {A : Type 0} → String → Method A → Method A
wrap text m w = relabel text (m w)

-- The address manager.

loaded_address : Option Bytes → (Bytes → Address) → Method Bool
loaded_address none parse w =
    (err (other "error loading address file"), record w { address = 0; is_address_loaded = false })
loaded_address (some bytes) parse w =
    (ok true, record w { address = parse bytes; is_address_loaded = true })

address_at : Stat → (Bytes → Address) → Method Bool
unfolding loaded_address
address_at not_exist parse w = (ok false, record w { address = 0; is_address_loaded = false })
address_at failed parse w = (
  err (other "error checking if address file exists"),
  record w { address = 0; is_address_loaded = false },
)
address_at exists parse w = loaded_address (read w.address_file) parse w

unfoldable pub load_address : Library → Method Bool
unfolding address_at
load_address lib w = address_at (stat w.address_file) lib.hex_to_address w

unfoldable pub set_address : Address → Method (Unit {0})
set_address a w = (ok tt, record w { address = a; is_address_loaded = true })

saved_address : Bool × File Bytes → Method (Unit {0})
saved_address (false, file) w =
    (err (other "error writing address file to disk"), record w { address_file = file })
saved_address (true, file) w = (ok tt, record w { address_file = file })

-- The cached address changes also where the write fails.
unfoldable pub set_and_save_address : Library → Address → Method (Unit {0})
unfolding saved_address
set_and_save_address lib a w =
    saved_address (write (lib.address_hex a) w.address_file)
      (record w { address = a; is_address_loaded = true })

-- The password manager.

password_read : Option String → Result (Option String)
password_read none = err (other "error reading password file")
password_read (some text) = ok (some text)

password_at : Stat → File String → Result (Option String)
unfolding password_read
password_at not_exist file = ok none
password_at failed file = password_read (read file)
password_at exists file = password_read (read file)

-- `none` is "no password saved". An error of the file's status is not looked at.
unfoldable pub get_password_from_disk : Method (Option String)
unfolding password_at
get_password_from_disk w = (password_at (stat w.password_file) w.password_file, w)

saved_password : Bool × File String → Method (Unit {0})
saved_password (false, file) w =
    (err (other "error saving password"), record w { password_file = file })
saved_password (true, file) w = (ok tt, record w { password_file = file })

unfoldable pub save_password : String → Method (Unit {0})
unfolding saved_password
save_password password w = saved_password (write password w.password_file) w

deleted_password : Option (File String) → Method (Unit {0})
deleted_password none w = (err (other "error deleting password"), w)
deleted_password (some file) w = (ok tt, record w { password_file = file })

-- `passwordManager.DeletePassword`, behind the wallet's method of that name.
unfoldable pub delete_password : Method (Unit {0})
unfolding deleted_password wrap
delete_password =
    wrap "error deleting wallet password" (λ w. deleted_password (remove w.password_file) w)
