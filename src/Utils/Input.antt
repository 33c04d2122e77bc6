-- ===== src/Utils/Input.antt =====
-- utils/input/validation.go: the checks of the texts that users give. A text is its code points.
pub mod Lists
pub mod Library
use node_manager_core.Base.{
  ℕ, zero, suc, ◌+◌, ◌-◌, ◌*◌, ◌^◌, String, Bool, true, false, not, ◌&&◌, ◌||◌, Option, none, some,
  List, [], ◌∷◌, ◌++◌, ltb, leb, ◌==◌, if◌then◌else◌, length,
}
use node_manager_core.Utils.Hex.{
  Bytes, codes, same, trim_prefix, hex_prefix, decode_string, hex_to_validator_pubkey,
}

pub data Checked (A : Type 0) : Type 0 where
  valid : A → Checked A
  invalid : String → Checked A

abbrev pub checked : {A : Type 0} → String → Option A → Checked A
checked e none = invalid e
checked e (some a) = valid a

abbrev pub and_then : {A B : Type 0} → Checked A → (A → Checked B) → Checked B
and_then (invalid e) f = invalid e
and_then (valid a) f = f a

-- `strings.Split` at commas.
abbrev pub in_front : ℕ → List Bytes → List Bytes
in_front c [] = (c ∷ []) ∷ []
in_front c (x ∷ xs) = (c ∷ x) ∷ xs

unfoldable pub split : Bytes → List Bytes
split [] = [] ∷ []
split (c ∷ s) = let rest = split s in if c == b',' then [] ∷ rest else in_front c rest

-- `unicode.IsSpace` and `strings.TrimSpace`.
abbrev pub is_space : ℕ → Bool
is_space c =
    (leb 9 c && leb c 13)
    || c == 32
    || c == 133
    || c == 160
    || c == 5760
    || (leb 8192 c && leb c 8202)
    || c == 8232
    || c == 8233
    || c == 8239
    || c == 8287
    || c == 12288

abbrev pub trim_left : Bytes → Bytes
trim_left [] = []
trim_left (c ∷ s) = let rest = trim_left s in if is_space c then rest else c ∷ s

abbrev pub keep_unless_blank : ℕ → Bytes → Bytes
keep_unless_blank c [] = if is_space c then [] else c ∷ []
keep_unless_blank c (x ∷ s) = c ∷ x ∷ s

abbrev pub trim_right : Bytes → Bytes
trim_right [] = []
trim_right (c ∷ s) = keep_unless_blank c (trim_right s)

abbrev pub trim_space : Bytes → Bytes
trim_space s = trim_right (trim_left s)

pub data BatchChecked (A : Type 0) : Type 0 where
  all_valid : List A → BatchChecked A
  invalid_at : ℕ → String → BatchChecked A

abbrev pub put_first : {A : Type 0} → A → BatchChecked A → BatchChecked A
put_first a (all_valid xs) = all_valid (a ∷ xs)
put_first a (invalid_at i e) = invalid_at i e

abbrev pub validated : {A : Type 0} → ℕ → Checked A → BatchChecked A → BatchChecked A
validated i (invalid e) rest = invalid_at i e
validated i (valid a) rest = put_first a rest

unfoldable pub validate_from : {A : Type 0} → (Bytes → Checked A) → ℕ → List Bytes → BatchChecked A
validate_from validate i [] = all_valid []
validate_from validate i (x ∷ xs) =
    validated i (validate (trim_space x)) (validate_from validate (suc i) xs)

unfoldable pub validate_batch : {A : Type 0} → (Bytes → Checked A) → Bytes → BatchChecked A
unfolding split validate_from
validate_batch validate value = validate_from validate 0 (split value)

-- `strconv.ParseUint` to base 10: digits, at least one, and a number of this many bits.
abbrev pub digits : ℕ → Bytes → Option ℕ
digits n [] = some n
digits n (c ∷ s) =
    let rest = digits (n * 10 + (c - b'0')) s in if leb b'0' c && leb c b'9' then rest else none

abbrev pub of_bits : ℕ → Option ℕ → Option ℕ
of_bits bits none = none
of_bits bits (some n) = if ltb n (2 ^ bits) then some n else none

abbrev pub parse_uint : ℕ → Bytes → Option ℕ
parse_uint bits [] = none
parse_uint bits (c ∷ s) = of_bits bits (digits 0 (c ∷ s))

unfoldable pub validate_uint : Bytes → Checked ℕ
validate_uint value = checked "Invalid" (parse_uint 64 value)

unfoldable pub validate_uint32 : Bytes → Checked ℕ
validate_uint32 value = checked "Invalid" (parse_uint 32 value)

abbrev pub positive : ℕ → Checked ℕ
positive n = if n == 0 then invalid "must be greater than 0" else valid n

unfoldable pub validate_positive_uint : Bytes → Checked ℕ
unfolding validate_uint
validate_positive_uint value = and_then (validate_uint value) positive

unfoldable pub validate_positive_uint32 : Bytes → Checked ℕ
unfolding validate_uint32
validate_positive_uint32 value = and_then (validate_uint32 value) positive

-- `strings.ToLower`, as far as the letters of the four words go.
abbrev pub to_lower : Bytes → Bytes
to_lower [] = []
to_lower (c ∷ s) = (if leb b'A' c && leb c b'Z' then c + 32 else c) ∷ to_lower s

abbrev pub bool_of : Bytes → Checked Bool
bool_of val =
    if same val (codes "true") || same val (codes "yes")
    then valid true
    else if same val (codes "false") || same val (codes "no")
    then valid false
    else invalid "valid values are 'true', 'yes', 'false' and 'no'"

unfoldable pub validate_bool : Bytes → Checked Bool
validate_bool value = bool_of (to_lower value)

-- The length of a text in bytes.
abbrev pub byte_length : Bytes → ℕ
byte_length [] = 0
byte_length (c ∷ s) =
    (if ltb c 128 then 1 else if ltb c 2048 then 2 else if ltb c 65536 then 3 else 4)
    + byte_length s

abbrev pub min_password_length : ℕ
min_password_length = 12

unfoldable pub validate_node_password : Bytes → Checked Bytes
validate_node_password value =
    if ltb (byte_length value) min_password_length
    then invalid "must be at least 12 characters long"
    else valid value

unfoldable pub validate_hash : Bytes → Checked Bytes
unfolding trim_prefix decode_string
validate_hash value =
    let s = trim_prefix value hex_prefix in
    if byte_length s == 64
    then checked "Invalid" (decode_string s)
    else invalid "it must have 64 characters."

unfoldable pub validate_byte_array : Bytes → Checked Bytes
unfolding trim_prefix decode_string
validate_byte_array value = checked "Invalid" (decode_string (trim_prefix value hex_prefix))

unfoldable pub validate_pubkey : Bytes → Checked Bytes
unfolding hex_to_validator_pubkey
validate_pubkey value = checked "Invalid" (hex_to_validator_pubkey value)
