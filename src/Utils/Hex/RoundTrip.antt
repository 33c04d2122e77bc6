-- ===== src/Utils/Hex/RoundTrip.antt =====
-- What utils/hex.go encodes, it decodes again.
use node_manager_core.Base.{
  ℕ, ◌+◌, ◌*◌, ◌/◌, ◌%◌, ◌<◌, ◌≡◌, ◌↔◌, refl, true, Option, none, some, [], ◌∷◌, All, length, arith,
  ap, ◌∙◌, ◌>>=◌, >>=-eq-some, subst,
}
use node_manager_core.Utils.Hex.{
  Bytes, hex_digit, from_hex_char, encode_to_string, decode_string, decoded, has_prefix,
  trim_prefix, encode_hex_with_prefix, decode_hex, hex_prefix, hex_to_validator_pubkey, if_length,
  pubkey_hex, pubkey_hex_with_prefix, validator_pubkey_length, same,
}

-- Every number is a byte.
abbrev pub AreBytes : Bytes → Type 0
AreBytes = All (λ b. b < 256)

from_hex_char-hex_digit : (n : ℕ) → n < 16 → from_hex_char (hex_digit n) ≡ some n
from_hex_char-hex_digit n h = ground arith

decode_string-encode_to_string :
    (bs : Bytes) → AreBytes bs → decode_string (encode_to_string bs) ≡ some bs
unfolding decode_string encode_to_string
decode_string-encode_to_string [] h = refl
decode_string-encode_to_string (b ∷ bs) (p, h) =
    let high : from_hex_char (hex_digit (b / 16)) ≡ some (b / 16) =
      from_hex_char-hex_digit (b / 16) (omega (arith, p)) in
    let low : from_hex_char (hex_digit (b % 16)) ≡ some (b % 16) =
      from_hex_char-hex_digit (b % 16) (omega arith) in
    let whole : b / 16 * 16 + b % 16 ≡ b = omega arith in
    rw (high, low, decode_string-encode_to_string bs h) (ap (λ n. some (n ∷ bs)) whole)

pub same_iff : (s t : Bytes) → (same s t ≡ true) ↔ (s ≡ t)
same_iff [] [] = ground arith
same_iff [] (y ∷ t) = (λ h. cc, λ h. cc)
same_iff (x ∷ s) [] = (λ h. cc, λ h. cc)
same_iff (x ∷ s) (y ∷ t) = ground (arith, same_iff s t)

-- The second digit of a text that is written is never an `x`.
trim_prefix-encode_to_string :
    (bs : Bytes) → AreBytes bs → trim_prefix (encode_to_string bs) hex_prefix ≡ encode_to_string bs
unfolding trim_prefix has_prefix encode_to_string
trim_prefix-encode_to_string [] h = refl
trim_prefix-encode_to_string (b ∷ bs) (p, h) = ground arith

-- A public key is 48 bytes.
abbrev pub IsPubkey : Bytes → Type 0
IsPubkey v = AreBytes v × (length v ≡ validator_pubkey_length)

pub decode_hex-encode :
    (bs : Bytes)
    → AreBytes bs
    → (decode_hex (encode_to_string bs) ≡ some bs)
      × (decode_hex (encode_hex_with_prefix bs) ≡ some bs)
unfolding decode_hex encode_hex_with_prefix trim_prefix has_prefix
decode_hex-encode bs h = (
  ap decode_string (trim_prefix-encode_to_string bs h) ∙ decode_string-encode_to_string bs h,
  decode_string-encode_to_string bs h,
)

from_hex_char-lt : (c n : ℕ) → from_hex_char c ≡ some n → n < 16
from_hex_char-lt c n h = ground arith

decoded-inv :
    (x y : Option ℕ) (r : Option Bytes) (bs : Bytes)
    → decoded x y r ≡ some bs
    → (h l : ℕ) × (t : Bytes) × (x ≡ some h)
      × (y ≡ some l)
      × (r ≡ some t)
      × (((h * 16 + l) ∷ t) ≡ bs)
decoded-inv none y r bs e = cc
decoded-inv (some h) none r bs e = cc
decoded-inv (some h) (some l) none bs e = cc
decoded-inv (some h) (some l) (some t) bs e = (h, l, t, refl, refl, refl, cc)

AreBytes-decode_string : (s bs : Bytes) → decode_string s ≡ some bs → AreBytes bs
unfolding decode_string
AreBytes-decode_string [] bs h = let e : ◌≡◌ {A = Bytes} [] bs = cc in subst AreBytes e tt
AreBytes-decode_string (x ∷ []) bs h = cc
AreBytes-decode_string (x ∷ y ∷ s) bs e =
    let (h, l, t, p, q, r, z) =
      decoded-inv (from_hex_char x) (from_hex_char y) (decode_string s) bs e in
    subst AreBytes z
      (omega (arith, from_hex_char-lt x h p, from_hex_char-lt y l q), AreBytes-decode_string s t r)

if_length-inv : (n : ℕ) (bs v : Bytes) → if_length n bs ≡ some v → (bs ≡ v) × (length bs ≡ n)
if_length-inv n bs v h = ground arith

if_length-IsPubkey : (v : Bytes) → IsPubkey v → if_length validator_pubkey_length v ≡ some v
if_length-IsPubkey v (p, q) = ground (arith, q)

IsPubkey-hex_to_validator_pubkey : (s v : Bytes) → hex_to_validator_pubkey s ≡ some v → IsPubkey v
unfolding hex_to_validator_pubkey decode_hex
IsPubkey-hex_to_validator_pubkey s v e =
    let (bs, p, q) = >>=-eq-some (decode_hex s) (if_length validator_pubkey_length) e in
    let (r, n) = if_length-inv validator_pubkey_length bs v q in
    subst IsPubkey r (AreBytes-decode_string (trim_prefix s hex_prefix) bs p, n)

-- Exactly the arrays of 48 bytes survive being written as text, without and with the prefix, and read
-- back as a public key.
pub hex_to_validator_pubkey_iff :
    (v : Bytes)
    → IsPubkey v ↔ (
        (hex_to_validator_pubkey (pubkey_hex v) ≡ some v)
        × (hex_to_validator_pubkey (pubkey_hex_with_prefix v) ≡ some v))
unfolding hex_to_validator_pubkey pubkey_hex pubkey_hex_with_prefix
hex_to_validator_pubkey_iff v = (
  λ p.
      let (e, e') = decode_hex-encode v p.0 in
      (
        ap (λ m. m >>= if_length validator_pubkey_length) e ∙ if_length-IsPubkey v p,
        ap (λ m. m >>= if_length validator_pubkey_length) e' ∙ if_length-IsPubkey v p,
      ),
  λ h. IsPubkey-hex_to_validator_pubkey (pubkey_hex v) v h.0,
)
