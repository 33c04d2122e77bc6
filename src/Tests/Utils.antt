-- ===== src/Tests/Utils.antt =====
-- Concrete inputs of the utilities.
use node_manager_core.Base.{refl, List, ◌≡◌, All, ◌≡◌, ◌↔◌, some, [], ◌∷◌}
use node_manager_core.Utils.Hex.{Bytes, hex_to_validator_pubkey, pubkey_hex, pubkey_hex_with_prefix}
use node_manager_core.Utils.Hex.RoundTrip.{IsPubkey, hex_to_validator_pubkey_iff}
use node_manager_core.Utils.Hex.{codes}
use node_manager_core.Utils.Input.{all_valid, validate_uint, validate_batch}
use node_manager_core.Utils.Input.Lists.{join, HasNoComma, Each, validate_batch_iff}

two_numbers :
    validate_batch validate_uint (codes "3, 18446744073709551615")
    ≡ all_valid (3 ∷ 18446744073709551615 ∷ [])
unfolding validate_batch validate_uint
two_numbers = refl

validate_batch_iff_example :
    (validate_batch validate_uint (codes "3, 4") ≡ all_valid (3 ∷ 4 ∷ [])) ↔ (
      (x : Bytes) × (ys : List Bytes) × (join x ys ≡ codes "3, 4")
      × All HasNoComma (x ∷ ys)
      × Each validate_uint (x ∷ ys) (3 ∷ 4 ∷ []))
validate_batch_iff_example = validate_batch_iff validate_uint (codes "3, 4") (3 ∷ 4 ∷ [])

abbrev ones : Bytes
ones =
    16 ∷ 9 ∷ 1 ∷ 1 ∷ 1 ∷ 1 ∷ 1 ∷ 1 ∷ 1 ∷ 1 ∷ 1 ∷ 1 ∷ 1 ∷ 1 ∷ 1 ∷ 1 ∷ 255 ∷ 1 ∷ 1 ∷ 1 ∷ 1 ∷ 1 ∷ 1 ∷ 1
    ∷ 1 ∷ 1 ∷ 1 ∷ 1 ∷ 1 ∷ 1 ∷ 1 ∷ 1 ∷ 1 ∷ 1 ∷ 1 ∷ 1 ∷ 1 ∷ 1 ∷ 1 ∷ 1 ∷ 1 ∷ 1 ∷ 1 ∷ 1 ∷ 1 ∷ 1 ∷ 1 ∷ 1
    ∷ []

hex_to_validator_pubkey_iff_example : IsPubkey ones ↔ (
    (hex_to_validator_pubkey (pubkey_hex ones) ≡ some ones)
    × (hex_to_validator_pubkey (pubkey_hex_with_prefix ones) ≡ some ones))
hex_to_validator_pubkey_iff_example = hex_to_validator_pubkey_iff ones
