-- ===== src/Utils/Input/Library.antt =====
-- The checks of utils/input/validation.go that rest on libraries.
use node_manager_core.Base.{ℕ, Bool, ◌||◌, Option, ltb, if◌then◌else◌}
use node_manager_core.Utils.Hex.{Bytes, trim_prefix, hex_prefix, decode_string}
use node_manager_core.Utils.Input.{Checked, valid, invalid, checked, and_then}

-- What is checked by libraries. A wei amount is a big integer.
pub record InputLibrary : Type 1 where
  pub BigInt : Type 0
  pub Float : Type 0
  pub Address : Type 0
  pub Duration : Type 0
  pub Time : Type 0
  pub TxInfo : Type 0
  pub set_string : ℕ → Bytes → Option BigInt  -- the base; 0 takes it from the prefix
  pub sign : BigInt → ℕ  -- 0 for less than zero, 1 for zero, 2 for more
  pub parse_float : Bytes → Option Float
  pub is_less : Float → ℕ → Bool  -- false where an operand is not a number
  pub is_more : Float → ℕ → Bool
  pub is_at_most : Float → ℕ → Bool
  pub hex_to_address : Bytes → Option Address
  pub is_mnemonic_valid : Bytes → Bool
  pub is_timezone : Bytes → Bool  -- the regular expression of the source
  pub unmarshal_tx_info : Bytes → Option TxInfo
  pub parse_duration : Bytes → Option Duration
  pub parse_time : Bytes → Option Time

module _ (lib : InputLibrary) where
  unfoldable pub validate_big_int : Bytes → Checked lib.BigInt
  validate_big_int value = checked "Invalid" (lib.set_string 0 value)

  unfoldable pub validate_address : Bytes → Checked lib.Address
  validate_address value = checked "Invalid" (lib.hex_to_address value)

  unfoldable pub validate_wei_amount : Bytes → Checked lib.BigInt
  validate_wei_amount value = checked "Invalid" (lib.set_string 10 value)

  unfoldable pub validate_positive_wei_amount : Bytes → Checked lib.BigInt
  unfolding validate_wei_amount
  validate_positive_wei_amount value =
      and_then (validate_wei_amount value)
        (λ v. if ltb (lib.sign v) 2 then invalid "must be greater than 0" else valid v)

  unfoldable pub validate_positive_or_zero_wei_amount : Bytes → Checked lib.BigInt
  unfolding validate_wei_amount
  validate_positive_or_zero_wei_amount value =
      and_then (validate_wei_amount value)
        (λ v. if ltb (lib.sign v) 1 then invalid "must be greater or equal to 0" else valid v)

  unfoldable pub validate_eth_amount : Bytes → Checked lib.Float
  validate_eth_amount value = checked "Invalid" (lib.parse_float value)

  abbrev pub up_to : ℕ → lib.Float → Checked lib.Float
  up_to bound v = if lib.is_less v 0 || lib.is_more v bound then invalid "out of range" else valid v

  unfoldable pub validate_fraction : Bytes → Checked lib.Float
  validate_fraction value = and_then (checked "Invalid" (lib.parse_float value)) (up_to 1)

  unfoldable pub validate_percentage : Bytes → Checked lib.Float
  validate_percentage value = and_then (checked "Invalid" (lib.parse_float value)) (up_to 100)

  unfoldable pub validate_positive_eth_amount : Bytes → Checked lib.Float
  unfolding validate_eth_amount
  validate_positive_eth_amount value =
      and_then (validate_eth_amount value)
        (λ v. if lib.is_at_most v 0 then invalid "must be greater than 0" else valid v)

  unfoldable pub validate_wallet_mnemonic : Bytes → Checked Bytes
  validate_wallet_mnemonic value =
      if lib.is_mnemonic_valid value then valid value else invalid "Invalid"

  unfoldable pub validate_timezone_location : Bytes → Checked Bytes
  validate_timezone_location value =
      if lib.is_timezone value then valid value else invalid "must be in the format 'Country/City'"

  unfoldable pub validate_tx_info : Bytes → Checked lib.TxInfo
  unfolding trim_prefix decode_string
  validate_tx_info value =
      and_then (checked "Invalid" (decode_string (trim_prefix value hex_prefix)))
        (λ bytes. checked "Deserializing failed" (lib.unmarshal_tx_info bytes))

  unfoldable pub validate_duration : Bytes → Checked lib.Duration
  validate_duration value = checked "Invalid" (lib.parse_duration value)

  unfoldable pub validate_time : Bytes → Checked lib.Time
  validate_time value = checked "Invalid" (lib.parse_time value)
