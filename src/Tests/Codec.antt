-- ===== src/Tests/Codec.antt =====
-- The encodings of field.rs, at concrete texts.
use graph_privacy_showcase_d.Common.{false, ◌++◌, ◌≡◌, ◌↔◌, refl, ok, is_empty, replicate}
use graph_privacy_showcase_d.Common.Text.{Text, codes}
use graph_privacy_showcase_d.Field.{fr_from_hex, fr_to_hex, clean_hex}
use graph_privacy_showcase_d.Field.Codec.{hex_value, fr_value}
use graph_privacy_showcase_d.Field.Spelling.{IsHex}
use graph_privacy_showcase_d.Field.Roundtrip.{fr_from_hex_iff, fr_from_hex-fr_to_hex}
use graph_privacy_showcase_d.Tests.{Element, test_field, test_laws, below_modulus}

abbrev five : Element
five = (5, below_modulus 5 refl)

fr_from_hex-fr_to_hex_example : fr_from_hex test_field (fr_to_hex test_field five) ≡ ok five
fr_from_hex-fr_to_hex_example = fr_from_hex-fr_to_hex test_field test_laws five

fr_from_hex_iff_example : (fr_from_hex test_field (codes "0x5") ≡ ok five) ↔ (
    (is_empty (clean_hex (codes "0x5")) ≡ false)
    × IsHex (clean_hex (codes "0x5"))
    × (hex_value (clean_hex (codes "0x5")) ≡ fr_value test_field five))
fr_from_hex_iff_example = fr_from_hex_iff test_field test_laws (codes "0x5") five

abbrev too_big : Text
too_big = codes "0x" ++ replicate 64 b'f'
