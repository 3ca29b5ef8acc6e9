-- ===== src/Tamper.antt =====
-- tamper.rs of items/01-private-bond-replay/src/replay/src: the alterations that an audit must notice.
pub mod Flip
pub mod Records
pub mod Resigned
use graph_privacy_showcase_d.Common.{
  ℕ, zero, suc, ◌+◌, ◌-◌, ◌%◌, ◌^◌, Bool, true, false, ◌&&◌, Option, none, some, List, [], ◌∷◌,
  ◌++◌, if◌then◌else◌, ◌==◌, reverse, Result, ok, err, ◌>>=◌, ◌>>◌, bail_if, context,
  identical_record, no_value_to_alter, no_digit_to_alter, no_op, not_json, no_commitments_array,
  empty_anchor_set, no_value_field, cannot_serialize, not_a_deployment,
}
use graph_privacy_showcase_d.Common.Text.{
  Text, codes, text_eq, u64_bound, strip_prefix, is_ascii_digit, is_ascii_hexdigit, drop_while,
  drop_while_end,
}
use graph_privacy_showcase_d.Field.{FieldOps, fr_from_hex, fr_to_hex, owner_from_private_key}
use graph_privacy_showcase_d.Json.{Json}
use graph_privacy_showcase_d.Records.{DisclosedRecord}
use graph_privacy_showcase_d.Attestation.{AttestationOps, AuditBundle, DomainConfig, eip712}

pub data Tripwire : Type 0 where
  altered_record altered_response_byte resigned_altered_anchors : Tripwire

unfoldable pub expected_detector : Tripwire → Text
expected_detector altered_record =
    codes "reconciliation (recomputed commitment absent from the served anchor set)"
expected_detector altered_response_byte = codes "attestation verification (responseCID mismatch)"
expected_detector resigned_altered_anchors = codes "root replay against on-chain knownRoots"

pub data RecordField : Type 0 where
  value_field salt_field owner_field maturity_date_field asset_id_field : RecordField

-- `n.wrapping_add(1)` on 64 bits
abbrev pub wrapping_suc : ℕ → ℕ
wrapping_suc n = (n + 1) % u64_bound

-- `==` of two records
abbrev pub record_eq : DisclosedRecord → DisclosedRecord → Bool
record_eq a b =
    text_eq a.commitment b.commitment
    && text_eq a.nullifier b.nullifier
    && a.value == b.value
    && a.salt == b.salt
    && text_eq a.owner b.owner
    && a.asset_id == b.asset_id
    && a.maturity_date == b.maturity_date
    && text_eq a.created_at b.created_at

module _ (F : FieldOps) where
  unfoldable pub alter_field : DisclosedRecord → RecordField → Result DisclosedRecord
  alter_field r value_field = ok (record r { value = wrapping_suc r.value })
  alter_field r salt_field = ok (record r { salt = wrapping_suc r.salt })
  alter_field r asset_id_field = ok (record r { asset_id = wrapping_suc r.asset_id })
  alter_field r maturity_date_field = ok (record r { maturity_date = wrapping_suc r.maturity_date })
  alter_field r owner_field = do
    owner ← fr_from_hex F r.owner
    ok (record r { owner = fr_to_hex F (owner_from_private_key F owner) })

  unfoldable pub alter_record : DisclosedRecord → RecordField → Result DisclosedRecord
  alter_record r field = do
    out ← alter_field r field
    bail_if (record_eq out r) identical_record
    ok out

-- `response.find(marker)`: the text through the first copy of the marker, and what follows it.
unfoldable pub split_after : Text → Text → Option (Text × Text)
split_after marker [] = elim (strip_prefix marker []) [
  | none ↦ none
  | some rest ↦ some (marker, rest)
]
split_after marker (c ∷ s) = elim (strip_prefix marker (c ∷ s)) [
  | some rest ↦ some (marker, rest)
  | none ↦ elim (split_after marker s) [
    | none ↦ none
    | some (before, rest) ↦ some (c ∷ before, rest)
  ]
]

-- `out[target] = match out[target] { .. }`
unfoldable pub rotate_digit : ℕ → ℕ
rotate_digit c =
    if c == b'0'
    then b'1'
    else if c == b'f'
    then b'e'
    else if is_ascii_digit c
    then c + 1
    else c - 1

-- The first hexadecimal digit of a text is rotated, if there is one.
unfoldable pub rotate_first : Text → Option Text
rotate_first [] = none
rotate_first (c ∷ s) =
    let later = rotate_first s in
    if is_ascii_hexdigit c
    then some (rotate_digit c ∷ s)
    else elim later [ none ↦ none | some t ↦ some (c ∷ t) ]

abbrev pub marker : Text
marker = codes "\"0x"

-- The source looks at bytes. The marker and the digits are single bytes, and no byte of a longer
-- character is one of them, so that characters stand for bytes here, and the result is UTF-8.
unfoldable pub alter_one_response_byte : Text → Result Text
alter_one_response_byte response = do
  found ← context no_value_to_alter (split_after marker response)
  rotated ← context no_digit_to_alter (rotate_first found.1)
  let altered = found.0 ++ rotated
  bail_if (text_eq altered response) no_op
  ok altered

-- What the crate `serde_json` offers to alter a value.
pub record JsonEdit (J : Json) : Type 0 where
  -- `*v.pointer_mut(path).as_array_mut()? = items`, of a value with an array at the path
  pub with_array_at : J.Value → Text → List J.Value → J.Value
  -- `v[key] = value`
  pub with_key : J.Value → Text → J.Value → J.Value
  pub string : Text → J.Value

-- `.trim_matches('"')`
abbrev pub is_quote : ℕ → Bool
is_quote c = c == b'"'

unfoldable pub trim_quotes : Text → Text
trim_quotes s = drop_while_end is_quote (drop_while is_quote s)

module _ (J : Json) (E : JsonEdit J) where
  open J use {Value}
  open E use {with_array_at, with_key, string}

  -- `pointer_mut("/data/commitments").and_then(as_array_mut)`
  abbrev array_at : Value → Text → Option (List Value)
  array_at v path = elim (J.pointer v path) [ none ↦ none | some a ↦ J.as_array a ]

  abbrev text_of : Value → Text → Option Text
  text_of v key = elim (J.get v key) [ none ↦ none | some w ↦ J.as_str w ]

  -- The first commitment with another value.
  unfoldable pub alter_commitment : Value → Result Value
  alter_commitment first = do
    original ← context no_value_field (text_of first (codes "value"))
    quoted ← alter_one_response_byte (codes "\"" ++ (original ++ codes "\""))
    let altered = trim_quotes quoted
    bail_if (text_eq altered original) no_op
    ok (with_key first (codes "value") (string altered))

  unfoldable pub alter_first : List Value → Result (List Value)
  alter_first [] = err empty_anchor_set
  alter_first (first ∷ rest) = do altered ← alter_commitment first; ok (altered ∷ rest)

  unfoldable pub alter_a_served_commitment : Text → Result Text
  alter_a_served_commitment response = do
    value ← context not_json (J.from_str response)
    commitments ← context no_commitments_array (array_at value (codes "/data/commitments"))
    altered ← alter_first commitments
    context cannot_serialize (J.to_string (with_array_at value (codes "/data/commitments") altered))

  module _ (A : AttestationOps) where
    unfoldable pub resign_altered_anchors :
        AuditBundle → DomainConfig A → A.Signer → Result AuditBundle
    resign_altered_anchors bundle domain signer = do
      altered_response ← alter_a_served_commitment bundle.response
      deployment ←
          context (not_a_deployment bundle.deployment) (A.parse_deployment bundle.deployment)
      let fresh = A.create (eip712 A domain) signer deployment bundle.request altered_response
      ok (record {
        schema = bundle.schema;
        request = bundle.request;
        response = altered_response;
        attestation = fresh;
        deployment = bundle.deployment;
        endpoint = bundle.endpoint ++ codes " (tampered: re-signed)";
        routed_indexer = bundle.routed_indexer;
      })
