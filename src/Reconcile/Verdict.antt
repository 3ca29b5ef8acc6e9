-- ===== src/Reconcile/Verdict.antt =====
-- What a report that passes establishes (reconcile.rs).
use graph_privacy_showcase_d.Common.{
  ℕ, ◌+◌, Bool, true, false, Option, none, some, List, [], ◌∷◌, ◌++◌, ◌≡◌, refl, sym, ap, ◌∙◌,
  arith, length, All, is_empty, Option-cases, Result-cases, inl, inr, ok, get_elem?,
}
use graph_privacy_showcase_d.Common.Text.{Text, text_eq_sound}
use graph_privacy_showcase_d.Common.BTreeMap.{BTreeMap, nat_ord, get}
use graph_privacy_showcase_d.Field.{FieldOps, fr_to_hex}
use graph_privacy_showcase_d.Records.{DisclosedRecord, ManifestEntry, recompute_commitment}
use graph_privacy_showcase_d.Attestation.{B256, is_fail}
use graph_privacy_showcase_d.Reconcile.{
  RootCheck, RecordCheck, Failure, root_not_replayed, ChainReader,
}
use graph_privacy_showcase_d.Reconcile.Checks.{
  push_if, check_record, check_entry, check_records, known_on, root_outcome, call_label, check_root,
  check_roots,
}
use graph_privacy_showcase_d.Reconcile.Accounting.{option_text_eq_iff}

pub is_empty-append {ℓ} :
    {A : Type ℓ} (xs ys : List A)
    → is_empty (xs ++ ys) ≡ true
    → (is_empty xs ≡ true) × (is_empty ys ≡ true)
is_empty-append [] ys h = (refl, h)
is_empty-append (x ∷ xs) ys h = absurd (cc)

module _ (F : FieldOps) (served : BTreeMap ℕ Text) (records : BTreeMap ℕ DisclosedRecord) where
  -- A record is loaded for the entry's leaf, and the manifest and the served log hold the commitment that
  -- its plaintext hashes to; of an entry that names no file, nothing is said.
  abbrev pub MatchedAs : ManifestEntry → Option Text → Type 0
  MatchedAs entry none = Unit
  MatchedAs entry (some file) =
      (r : DisclosedRecord) × (commitment : Text) × (get entry.leaf_index records ≡ some r)
      × (recompute_commitment F r ≡ ok commitment)
      × (entry.commitment ≡ commitment)
      × (get entry.leaf_index served ≡ some commitment)

  abbrev pub IsMatched : ManifestEntry → Type 0
  IsMatched entry = MatchedAs entry entry.record_file

  check_record-quiet :
      (entry : ManifestEntry) (file : Text) (checked : RecordCheck × List Failure)
      → check_record F served records entry file ≡ ok checked
      → is_empty checked.1 ≡ true
      → MatchedAs entry (some file)
  unfolding check_record
  check_record-quiet entry file checked e h = elim (Option-cases (get entry.leaf_index records)) [
    | inl missing ↦ absurd (ground arith)
    | inr (r, loaded) ↦ elim (Result-cases (recompute_commitment F r)) [
      | inr (bad, failed) ↦ absurd (ground arith)
      | inl (commitment, hashed) ↦ (
        r,
        commitment,
        loaded,
        hashed,
        text_eq_sound entry.commitment commitment (ground arith),
        (option_text_eq_iff _ commitment).0 (ground arith),
      )
    ]
  ]

  check_entry-quiet :
      (entry : ManifestEntry) (o : Option Text) (here : List RecordCheck × List Failure)
      → check_entry F served records entry o ≡ ok here
      → is_empty here.1 ≡ true
      → MatchedAs entry o
  unfolding check_entry
  check_entry-quiet entry none here e h = tt
  check_entry-quiet entry (some f) here e h =
      elim (Result-cases (check_record F served records entry f)) [
        | inr (bad, failed) ↦ absurd (ground arith)
        | inl (checked, done) ↦ check_record-quiet entry f checked done (ground arith)
      ]

  pub check_records-quiet :
      (entries : List ManifestEntry) (recorded : List RecordCheck × List Failure)
      → check_records F served records entries ≡ ok recorded
      → is_empty recorded.1 ≡ true
      → All IsMatched entries
  unfolding check_records
  check_records-quiet [] recorded e h = tt
  check_records-quiet (entry ∷ entries) recorded e h =
      elim (Result-cases (check_entry F served records entry entry.record_file)) [
        | inr (bad, failed) ↦ absurd (ground arith)
        | inl (here, checked) ↦ elim (Result-cases (check_records F served records entries)) [
          | inr (bad, failed) ↦ absurd (ground arith)
          | inl (rest, later) ↦
              let joined : recorded.1 ≡ here.1 ++ rest.1 = ground arith in
              let (quiet, quiet_later) = is_empty-append here.1 rest.1 (rw (← joined) h) in
              (
                check_entry-quiet entry entry.record_file here checked quiet,
                check_records-quiet entries rest later quiet_later,
              )
        ]
      ]

module _ (F : FieldOps) (parse_b256 : Text → Option B256) (chain : Option ChainReader) where
  open F use {Fr}

  -- A node of the chain confirmed the root, under the 32 bytes of its text.
  abbrev pub IsKnown : Fr → Type 0
  IsKnown root =
      (reader : ChainReader) × (bytes : B256) × (chain ≡ some reader)
      × (parse_b256 (fr_to_hex F root) ≡ some bytes)
      × (reader.is_known_root bytes ≡ ok true)

  known_on-true :
      (o : Option ChainReader) (rebuilt : Text)
      → known_on F parse_b256 o rebuilt ≡ ok (some true)
      → (reader : ChainReader) × (bytes : B256) × (o ≡ some reader)
        × (parse_b256 rebuilt ≡ some bytes)
        × (reader.is_known_root bytes ≡ ok true)
  unfolding known_on
  known_on-true none rebuilt e = absurd (cc)
  known_on-true (some reader) rebuilt e = elim (Option-cases (parse_b256 rebuilt)) [
    | inl bad ↦ absurd (ground arith)
    | inr (bytes, parsed) ↦ (reader, bytes, refl, parsed, ground arith)
  ]

  quiet_outcome :
      (known : Option Bool) (failure : Failure)
      → is_empty (push_if (is_fail (root_outcome F parse_b256 known)) failure) ≡ true
      → known ≡ some true
  quiet_outcome none failure h = absurd (cc)
  quiet_outcome (some true) failure h = refl
  quiet_outcome (some false) failure h = absurd (cc)

  check_root-quiet :
      (call_order : List Text) (i count : ℕ) (root : Fr) (here : RootCheck × List Failure)
      → check_root F parse_b256 chain call_order i count root ≡ ok here
      → is_empty here.1 ≡ true
      → IsKnown root
  unfolding check_root
  check_root-quiet call_order i count root here e h =
      elim (Result-cases (known_on F parse_b256 chain (fr_to_hex F root))) [
        | inr (bad, failed) ↦ absurd (ground arith)
        | inl (known, asked) ↦
            let made : here.1
                ≡ push_if (is_fail (root_outcome F parse_b256 known))
                    (root_not_replayed (call_label (get_elem? call_order i) i) count) =
              ground arith in
            let answer = quiet_outcome known _ (ap is_empty (sym made) ∙ h) in
            known_on-true chain (fr_to_hex F root) (asked ∙ ap ok answer)
      ]

  pub check_roots-quiet :
      (call_order : List Text) (i : ℕ) (counts : List ℕ) (roots : List Fr)
      (replayed : List RootCheck × List Failure)
      → length counts ≡ length roots
      → check_roots F parse_b256 chain call_order i counts roots ≡ ok replayed
      → is_empty replayed.1 ≡ true
      → All IsKnown roots
  unfolding check_roots
  check_roots-quiet call_order i [] [] replayed n e h = tt
  check_roots-quiet call_order i [] (root ∷ roots) replayed n e h = absurd (omega arith)
  check_roots-quiet call_order i (count ∷ counts) [] replayed n e h = absurd (omega arith)
  check_roots-quiet call_order i (count ∷ counts) (root ∷ roots) replayed n e h =
      elim (Result-cases (check_root F parse_b256 chain call_order i count root)) [
        | inr (bad, failed) ↦ absurd (ground arith)
        | inl (here, checked) ↦
            elim (Result-cases (check_roots F parse_b256 chain call_order (i + 1) counts roots)) [
              | inr (bad, failed) ↦ absurd (ground arith)
              | inl (rest, later) ↦
                  let joined : replayed.1 ≡ here.1 ++ rest.1 = ground arith in
                  let (quiet, quiet_later) = is_empty-append here.1 rest.1 (rw (← joined) h) in
                  (
                    check_root-quiet call_order i count root here checked quiet,
                    check_roots-quiet call_order (i + 1) counts roots rest (omega arith) later
                        quiet_later,
                  )
            ]
      ]
