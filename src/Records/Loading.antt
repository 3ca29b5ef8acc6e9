-- ===== src/Records/Loading.antt =====
-- `load_records` finds the file of every disclosed entry under the entry's leaf index (records.rs).
use graph_privacy_showcase_d.Common.{
  ℕ, Option, none, some, List, [], ◌∷◌, ◌≡◌, ◌≢◌, refl, sym, ap, ◌∙◌, arith, ok, All, Option-cases,
  inl, inr, >>=-eq-ok, ok-injective,
}
use graph_privacy_showcase_d.Common.Text.{Text, text_eq_sound}
use graph_privacy_showcase_d.Common.BTreeMap.{BTreeMap, nat_ord, get, insert, get-insert}
use graph_privacy_showcase_d.Records.{
  DisclosedRecord, ManifestEntry, RecordsManifest, check_internal_consistency,
}
use graph_privacy_showcase_d.Records.Manifest.{
  Disk, load, load_record, load_entry, load_entries, load_records, manifest_schema,
}
use graph_privacy_showcase_d.Records.Laws.{AreDistinct, IsFiled, check_internal_consistency_sound}

module _ (D : Disk) (records_dir : Text) where
  -- The file was read, and its record stands under the entry's leaf index; without a file, nothing.
  abbrev pub LoadedAs : BTreeMap ℕ DisclosedRecord → ManifestEntry → Option Text → Type 0
  LoadedAs out entry none = Unit
  LoadedAs out entry (some file) =
      (r : DisclosedRecord) × (load_record D (D.join records_dir file) ≡ ok r)
      × (get entry.leaf_index out ≡ some r)

  abbrev pub IsLoaded : BTreeMap ℕ DisclosedRecord → ManifestEntry → Type 0
  IsLoaded out entry = LoadedAs out entry entry.record_file

  loaded_as :
      (out : BTreeMap ℕ DisclosedRecord) (entry : ManifestEntry) (o : Option Text)
      → ((file : Text) → o ≡ some file → LoadedAs out entry (some file))
      → LoadedAs out entry o
  loaded_as out entry none h = tt
  loaded_as out entry (some file) h = h file refl

  load_entry_other :
      (entry : ManifestEntry) (k : ℕ) (out next : BTreeMap ℕ DisclosedRecord) (file : Option Text)
      → entry.leaf_index ≢ k
      → load_entry D records_dir entry file out ≡ ok next
      → get k next ≡ get k out
  unfolding load_entry
  load_entry_other entry k out next none h e = ap (get k) (sym (ok-injective out next e))
  load_entry_other entry k out next (some file) h e =
      let (r, loaded, e1) =
        >>=-eq-ok (load_record D (D.join records_dir file))
          (λ r. ok (insert entry.leaf_index r out)) e in
      ap (get k) (sym (ok-injective _ next e1))
      ∙ ground (arith, get-insert entry.leaf_index k r out)

  load_entries_other :
      (k : ℕ) (es : List ManifestEntry) (out r : BTreeMap ℕ DisclosedRecord)
      → All (λ (f : ManifestEntry). f.leaf_index ≢ k) es
      → load_entries D records_dir es out ≡ ok r
      → get k r ≡ get k out
  unfolding load_entries
  load_entries_other k [] out r h e = ap (get k) (sym (ok-injective out r e))
  load_entries_other k (entry ∷ es) out r (p, h) e =
      let (next, loaded, e1) =
        >>=-eq-ok (load_entry D records_dir entry entry.record_file out)
          (load_entries D records_dir es) e in
      load_entries_other k es next r h e1
      ∙ load_entry_other entry k out next entry.record_file p loaded

  load_entry_own :
      (entry : ManifestEntry) (out next : BTreeMap ℕ DisclosedRecord) (named : Option Text)
      (file : Text)
      → named ≡ some file
      → load_entry D records_dir entry named out ≡ ok next
      → (r : DisclosedRecord) × (load_record D (D.join records_dir file) ≡ ok r)
        × (get entry.leaf_index next ≡ some r)
  unfolding load_entry
  load_entry_own entry out next none file n e = absurd (cc)
  load_entry_own entry out next (some f) file n e =
      let (r, loaded, e1) =
        >>=-eq-ok (load_record D (D.join records_dir f)) (λ r. ok (insert entry.leaf_index r out))
          e in
      let same : f ≡ file = cc in
      (
        r,
        rw (sym same) loaded,
        ap (get entry.leaf_index) (sym (ok-injective _ next e1))
            ∙ ground (arith, get-insert entry.leaf_index entry.leaf_index r out),
      )

  load_entries_sound :
      (es : List ManifestEntry) (out r : BTreeMap ℕ DisclosedRecord)
      → AreDistinct es
      → load_entries D records_dir es out ≡ ok r
      → All (IsLoaded r) es
  unfolding load_entries
  load_entries_sound [] out r d e = tt
  load_entries_sound (entry ∷ es) out r (ne, d) e =
      let (next, loaded, e1) =
        >>=-eq-ok (load_entry D records_dir entry entry.record_file out)
          (load_entries D records_dir es) e in
      (
        loaded_as r entry entry.record_file (λ file named.
            let (rec, read, found) =
              load_entry_own entry out next entry.record_file file named loaded in
            (rec, read, load_entries_other entry.leaf_index es next r ne e1 ∙ found)),
        load_entries_sound es next r d e1,
      )

load-eq-ok :
    (D : Disk) (path : Text) (manifest : RecordsManifest)
    → load D path ≡ ok manifest
    → (manifest.schema ≡ manifest_schema) × (check_internal_consistency manifest ≡ ok tt)
unfolding load
load-eq-ok D path manifest e = elim (Option-cases (D.read_to_string path)) [
  | inl missing ↦ absurd (ground arith)
  | inr (raw, read) ↦ elim (Option-cases (D.manifest_from_str raw)) [
    | inl bad ↦ absurd (ground arith)
    | inr (m, parsed) ↦ (text_eq_sound manifest.schema manifest_schema (ground arith), ground arith)
  ]
]

-- After a manifest is loaded and then its records, the manifest has the expected schema, exactly
-- its disclosed entries name a file, and the record under the leaf index of every entry that names
-- a file is the one read from it.
pub load_records_sound :
    (D : Disk) (path records_dir : Text) (manifest : RecordsManifest)
    (records : BTreeMap ℕ DisclosedRecord)
    → load D path ≡ ok manifest
    → load_records D manifest records_dir ≡ ok records
    → (manifest.schema ≡ manifest_schema)
      × All IsFiled manifest.entries
      × All (IsLoaded D records_dir records) manifest.entries
unfolding load_records
load_records_sound D path records_dir manifest records e k =
    let (schema, consistent) = load-eq-ok D path manifest e in
    let (_, distinct, filed) = check_internal_consistency_sound manifest consistent in
    (schema, filed, load_entries_sound D records_dir manifest.entries [] records distinct k)
