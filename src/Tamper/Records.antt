-- ===== src/Tamper/Records.antt =====
-- `alter_record` changes one field (tamper.rs).
use graph_privacy_showcase_d.Common.{
  ℕ, Bool, true, false, ◌==◌, ◌≡◌, ◌≢◌, sym, ap, ◌∙◌, arith, ok, bail_if, identical_record,
  >>=-eq-ok, ok-injective, bail_if-eq-ok,
}
use graph_privacy_showcase_d.Common.Text.{text_eq_refl}
use graph_privacy_showcase_d.Field.{FieldOps, fr_from_hex, fr_to_hex, owner_from_private_key}
use graph_privacy_showcase_d.Records.{DisclosedRecord}
use graph_privacy_showcase_d.Tamper.{
  RecordField, value_field, salt_field, owner_field, maturity_date_field, asset_id_field,
  wrapping_suc, record_eq, alter_field, alter_record,
}

wrapping_suc-changes : (n : ℕ) → (wrapping_suc n == n) ≡ false
wrapping_suc-changes n = ground arith

-- The record with the named field changed, where this can be done.
abbrev pub AlteredAs : FieldOps → DisclosedRecord → RecordField → DisclosedRecord → Type 0
AlteredAs F r value_field out = out ≡ record r { value = wrapping_suc r.value }
AlteredAs F r salt_field out = out ≡ record r { salt = wrapping_suc r.salt }
AlteredAs F r asset_id_field out = out ≡ record r { asset_id = wrapping_suc r.asset_id }
AlteredAs F r maturity_date_field out =
    out ≡ record r { maturity_date = wrapping_suc r.maturity_date }
AlteredAs F r owner_field out =
    (key : F.Fr) × (fr_from_hex F r.owner ≡ ok key)
    × (out ≡ record r { owner = fr_to_hex F (owner_from_private_key F key) })

abbrev pub is_number : RecordField → Bool
is_number owner_field = false
is_number _ = true

-- The alteration of a field that is a number always succeeds.
pub alter_record_total :
    (F : FieldOps) (r : DisclosedRecord) (field : RecordField)
    → is_number field ≡ true
    → (out : DisclosedRecord) × (alter_record F r field ≡ ok out)
unfolding alter_record alter_field
alter_record_total F r value_field h =
    (record r { value = wrapping_suc r.value }, ground (arith, wrapping_suc-changes r.value))
alter_record_total F r salt_field h =
    (record r { salt = wrapping_suc r.salt }, ground (arith, wrapping_suc-changes r.salt))
alter_record_total F r asset_id_field h = (
  record r { asset_id = wrapping_suc r.asset_id },
  ground (arith, wrapping_suc-changes r.asset_id),
)
alter_record_total F r maturity_date_field h = (
  record r { maturity_date = wrapping_suc r.maturity_date },
  ground (arith, wrapping_suc-changes r.maturity_date),
)
alter_record_total F r owner_field h = absurd (cc)

record_eq_refl : (r : DisclosedRecord) → record_eq r r ≡ true
record_eq_refl r = ground (
  arith,
  text_eq_refl r.commitment,
  text_eq_refl r.nullifier,
  text_eq_refl r.owner,
  text_eq_refl r.created_at,
)

alter_field-altered :
    (F : FieldOps) (r out : DisclosedRecord) (field : RecordField)
    → alter_field F r field ≡ ok out
    → AlteredAs F r field out
unfolding alter_field
alter_field-altered F r out value_field e = sym (ok-injective _ _ e)
alter_field-altered F r out salt_field e = sym (ok-injective _ _ e)
alter_field-altered F r out asset_id_field e = sym (ok-injective _ _ e)
alter_field-altered F r out maturity_date_field e = sym (ok-injective _ _ e)
alter_field-altered F r out owner_field e =
    let (key, parsed, e1) = >>=-eq-ok (fr_from_hex F r.owner) _ e in
    (key, parsed, sym (ok-injective _ _ e1))

-- On success the altered record is the original with the named field replaced (a number by its
-- successor on 64 bits, the owner by the canonical text of its hash), and it is not the original.
pub alter_record_sound :
    (F : FieldOps) (r out : DisclosedRecord) (field : RecordField)
    → alter_record F r field ≡ ok out
    → AlteredAs F r field out × (out ≢ r)
unfolding alter_record
alter_record_sound F r out field e =
    let (made, done, e1) = >>=-eq-ok (alter_field F r field) _ e in
    let (u, differs, e2) = >>=-eq-ok (bail_if (record_eq made r) identical_record) _ e1 in
    let same : made ≡ out = ok-injective _ _ e2 in
    (
      alter_field-altered F r out field (done ∙ ap ok same),
      (λ unchanged.
          let equal : record_eq made r ≡ true =
            ap (λ x. record_eq x r) (same ∙ unchanged) ∙ record_eq_refl r in
          absurd (cc (bail_if-eq-ok _ _ differs))),
    )
