-- ===== src/Records/Manifest.antt =====
-- `RecordsManifest::load` and `load_records` of records.rs, over a file system and serde's readers.
use graph_privacy_showcase_d.Common.{
  ℕ, not, Option, none, some, List, [], ◌∷◌, Result, ok, ◌>>=◌, ◌>>◌, bail_if, context, cannot_read,
  cannot_parse, unexpected_schema,
}
use graph_privacy_showcase_d.Common.Text.{Text, codes, text_eq}
use graph_privacy_showcase_d.Common.BTreeMap.{BTreeMap, nat_ord, insert}
use graph_privacy_showcase_d.Records.{
  DisclosedRecord, ManifestEntry, RecordsManifest, check_internal_consistency,
}

pub record Disk : Type 0 where
  -- `std::fs::read_to_string`, `Path::join`
  pub read_to_string : Text → Option Text
  pub join : Text → Text → Text
  -- `serde_json::from_str` at the two types
  pub manifest_from_str : Text → Option RecordsManifest
  pub record_from_str : Text → Option DisclosedRecord

abbrev pub manifest_schema : Text
manifest_schema = codes "bond-replay/records-manifest/1"

module _ (D : Disk) where
  open D use {read_to_string, join, manifest_from_str, record_from_str}

  unfoldable pub load : Text → Result RecordsManifest
  load path = do
    raw ← context (cannot_read path) (read_to_string path)
    manifest ← context (cannot_parse path) (manifest_from_str raw)
    bail_if (not (text_eq manifest.schema manifest_schema)) (unexpected_schema manifest.schema)
    check_internal_consistency manifest
    ok manifest

  unfoldable pub load_record : Text → Result DisclosedRecord
  load_record path = do
    raw ← context (cannot_read path) (read_to_string path)
    context (cannot_parse path) (record_from_str raw)

  -- One round of the loop of `load_records`.
  unfoldable pub load_entry :
      Text
      → ManifestEntry
      → Option Text
      → BTreeMap ℕ DisclosedRecord
      → Result (BTreeMap ℕ DisclosedRecord)
  load_entry records_dir entry none out = ok out
  load_entry records_dir entry (some file) out = do
    r ← load_record (join records_dir file)
    ok (insert entry.leaf_index r out)

  unfoldable pub load_entries :
      Text → List ManifestEntry → BTreeMap ℕ DisclosedRecord → Result (BTreeMap ℕ DisclosedRecord)
  load_entries records_dir [] out = ok out
  load_entries records_dir (entry ∷ entries) out = do
    next ← load_entry records_dir entry entry.record_file out
    load_entries records_dir entries next

  unfoldable pub load_records : RecordsManifest → Text → Result (BTreeMap ℕ DisclosedRecord)
  load_records manifest records_dir = load_entries records_dir manifest.entries []
