-- ===== src/Utils/Hex.antt =====
-- utils/hex.go, and the text form of a validator's public key (beacon/pubkey.go).
pub mod RoundTrip
use Prim.Native.Char.{code}
use node_manager_core.Base.{
  ℕ, suc, ◌+◌, ◌-◌, ◌*◌, ◌/◌, ◌%◌, String, Bool, true, false, Option, none, some, List, [], ◌∷◌,
  ◌++◌, ltb, leb, ◌==◌, if◌then◌else◌, ◌&&◌, ◌>>=◌, length,
}

abbrev pub Bytes : Type 0
Bytes = List ℕ

-- The code points of a literal, which are its bytes where the text is ASCII.
abbrev pub codes : String → Bytes
codes String.[] = []
codes (String.◌∷◌ c s) = code c ∷ codes s

abbrev pub same : Bytes → Bytes → Bool
same [] [] = true
same [] (y ∷ ys) = false
same (x ∷ xs) [] = false
same (x ∷ xs) (y ∷ ys) = x == y && same xs ys

-- The digits of encoding/hex: it writes small letters and reads both.
abbrev pub hex_digit : ℕ → ℕ
hex_digit n = if ltb n 10 then b'0' + n else b'a' + (n - 10)

abbrev pub from_hex_char : ℕ → Option ℕ
from_hex_char c =
    if leb b'0' c && leb c b'9'
    then some (c - b'0')
    else if leb b'a' c && leb c b'f'
    then some (c - b'a' + 10)
    else if leb b'A' c && leb c b'F'
    then some (c - b'A' + 10)
    else none

-- `hex.EncodeToString`.
unfoldable pub encode_to_string : Bytes → Bytes
encode_to_string [] = []
encode_to_string (b ∷ bs) = hex_digit (b / 16) ∷ hex_digit (b % 16) ∷ encode_to_string bs

abbrev pub decoded : Option ℕ → Option ℕ → Option Bytes → Option Bytes
decoded (some h) (some l) (some bs) = some ((h * 16 + l) ∷ bs)
decoded _ _ _ = none

-- `hex.DecodeString`; nothing for its errors, an odd length or another character.
unfoldable pub decode_string : Bytes → Option Bytes
decode_string [] = some []
decode_string (x ∷ []) = none
decode_string (x ∷ y ∷ s) = decoded (from_hex_char x) (from_hex_char y) (decode_string s)

abbrev pub hex_prefix : Bytes
hex_prefix = codes "0x"

-- `strings.HasPrefix` and `strings.TrimPrefix`.
unfoldable pub has_prefix : Bytes → Bytes → Bool
has_prefix s [] = true
has_prefix [] (p ∷ ps) = false
has_prefix (c ∷ s) (p ∷ ps) = c == p && has_prefix s ps

abbrev drop_prefix : Bytes → Bytes → Bytes
drop_prefix s [] = s
drop_prefix [] (p ∷ ps) = []
drop_prefix (c ∷ s) (p ∷ ps) = drop_prefix s ps

unfoldable pub trim_prefix : Bytes → Bytes → Bytes
unfolding has_prefix
trim_prefix s p = if has_prefix s p then drop_prefix s p else s

unfoldable pub encode_hex_with_prefix : Bytes → Bytes
unfolding encode_to_string
encode_hex_with_prefix value = hex_prefix ++ encode_to_string value

unfoldable pub decode_hex : Bytes → Option Bytes
unfolding trim_prefix decode_string
decode_hex value = decode_string (trim_prefix value hex_prefix)

unfoldable pub add_prefix : Bytes → Bytes
unfolding has_prefix
add_prefix value = if has_prefix value hex_prefix then value else hex_prefix ++ value

unfoldable pub remove_prefix : Bytes → Bytes
unfolding trim_prefix
remove_prefix value = trim_prefix value hex_prefix

-- A validator's public key is an array of 48 bytes.
abbrev pub validator_pubkey_length : ℕ
validator_pubkey_length = 48

unfoldable pub pubkey_hex : Bytes → Bytes
unfolding encode_to_string
pubkey_hex v = encode_to_string v

unfoldable pub pubkey_hex_with_prefix : Bytes → Bytes
unfolding encode_hex_with_prefix
pubkey_hex_with_prefix v = encode_hex_with_prefix v

abbrev pub if_length : ℕ → Bytes → Option Bytes
if_length n bytes = if length bytes == n then some bytes else none

-- `HexToValidatorPubkey`; nothing for its two errors.
unfoldable pub hex_to_validator_pubkey : Bytes → Option Bytes
unfolding decode_hex
hex_to_validator_pubkey value = decode_hex value >>= if_length validator_pubkey_length
