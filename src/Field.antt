-- ===== src/Field.antt =====
-- field.rs and poseidon.rs of items/01-private-bond-replay/src/replay/src: elements of the BN254
-- scalar field, their texts and bytes, and the hashes over them.
pub mod Codec
pub mod Spelling
pub mod Roundtrip
use graph_privacy_showcase_d.Common.{
  ℕ, zero, suc, ◌+◌, ◌*◌, ◌/◌, ◌%◌, ◌<◌, ◌≤◌, ◌^◌, Bool, true, false, not, ◌&&◌, ◌||◌, Option, none,
  some, List, [], ◌∷◌, ◌++◌, reverse, ◌≡◌, refl, arith, if◌then◌else◌, leb, ◌==◌, length, all, take,
  replicate, is_empty, Result, Error, ok, err, ◌>>=◌, ◌>>◌, bail_if, context, empty_hex,
  cannot_parse_hex, cannot_parse_decimal, not_hex, not_a_field_element, rejected_field_element,
  u64_not_in_field,
}
use graph_privacy_showcase_d.Common.Text.{
  Text, codes, trim, trim_start_matches, drop_while_end, is_ascii_hexdigit, decimal,
}

-- The crates `num-bigint` (a `BigUint` is a number), `ff` and `poseidon-rs`, and `hex`.
pub record FieldOps : Type 1 where
  pub Fr : Type 0
  -- `BigUint::parse_bytes(s, radix)`
  pub parse_bytes : Text → ℕ → Option ℕ
  -- `BigUint::to_str_radix`
  pub to_str_radix : ℕ → ℕ → Text
  -- `Fr::from_str`
  pub from_str : Text → Option Fr
  -- `f.into_repr().as_ref()`: the limbs of 64 bits, the lowest first
  pub into_repr : Fr → List ℕ
  -- `hasher().hash(inputs).expect(..)` on one, two or five inputs, which the crate accepts
  pub hash : List Fr → Fr
  -- `hex::encode`
  pub hex_encode : List ℕ → Text

-- `BN254_MODULUS_DEC`
abbrev pub modulus : ℕ
modulus = 21888242871839275222246405745257275088548364400416034343698204186575808495617

-- `u64::to_le_bytes`
abbrev pub le_bytes : ℕ → ℕ → List ℕ
le_bytes zero n = []
le_bytes (suc count) n = (n % 256) ∷ le_bytes count (n / 256)

-- The loop of `fr_to_bytes32`: the limbs' bytes, one after the other.
abbrev pub limbs_bytes : List ℕ → List ℕ
limbs_bytes [] = []
limbs_bytes (limb ∷ limbs) = le_bytes 8 limb ++ limbs_bytes limbs

-- `s.trim().trim_start_matches("0x").trim_start_matches("0X")`
unfoldable pub clean_hex : Text → Text
clean_hex s = trim_start_matches (codes "0X") (trim_start_matches (codes "0x") (trim s))

abbrev is_close : ℕ → Bool
is_close c = c == b')'

-- `trim().trim_start_matches("Fr(").trim_end_matches(')').trim()`
unfoldable pub unwrap_fr : Text → Text
unwrap_fr s = trim (drop_while_end is_close (trim_start_matches (codes "Fr(") (trim s)))

module _ (F : FieldOps) where
  open F use {Fr, parse_bytes, to_str_radix, from_str, into_repr, hash, hex_encode}

  unfoldable pub fr_from_biguint : ℕ → Text → Result Fr
  fr_from_biguint n original =
      if leb modulus n
      then err (not_a_field_element original)
      else context (rejected_field_element original) (from_str (to_str_radix n 10))

  unfoldable pub fr_from_hex : Text → Result Fr
  fr_from_hex s = do
    let clean = clean_hex s
    bail_if (is_empty clean) (empty_hex s)
    bail_if (not (all is_ascii_hexdigit clean)) (not_hex s)
    n ← context (cannot_parse_hex s) (parse_bytes clean 16)
    fr_from_biguint n s

  unfoldable pub fr_from_u64 : ℕ → Result Fr
  fr_from_u64 v = context (u64_not_in_field v) (from_str (decimal v))

  unfoldable pub fr_from_dec : Text → Result Fr
  fr_from_dec s = do
    n ← context (cannot_parse_decimal s) (parse_bytes (trim s) 10)
    fr_from_biguint n s

  -- 32 bytes, the highest first; the limbs are written into an array of zeros, which is reversed.
  unfoldable pub fr_to_bytes32 : Fr → List ℕ
  fr_to_bytes32 f = reverse (take 32 (limbs_bytes (into_repr f) ++ replicate 32 0))

  unfoldable pub fr_to_hex : Fr → Text
  unfolding fr_to_bytes32
  fr_to_hex f = codes "0x" ++ hex_encode (fr_to_bytes32 f)

  unfoldable pub normalize_bytes32_hex : Text → Result Text
  normalize_bytes32_hex s = do f ← fr_from_hex (unwrap_fr s); ok (fr_to_hex f)

  -- poseidon.rs
  unfoldable pub note_commitment : ℕ → ℕ → Fr → ℕ → ℕ → Result Fr
  note_commitment value salt owner asset_id maturity_date = do
    v ← fr_from_u64 value
    s ← fr_from_u64 salt
    a ← fr_from_u64 asset_id
    m ← fr_from_u64 maturity_date
    ok (hash (v ∷ s ∷ owner ∷ a ∷ m ∷ []))

  unfoldable pub nullifier : ℕ → Fr → Result Fr
  nullifier salt private_key = do s ← fr_from_u64 salt; ok (hash (s ∷ private_key ∷ []))

  unfoldable pub owner_from_private_key : Fr → Fr
  owner_from_private_key private_key = hash (private_key ∷ [])

  unfoldable pub hash_pair : Fr → Fr → Fr
  hash_pair left right = hash (left ∷ right ∷ [])
