-- ===== src/Fixtures/Write.antt =====
-- `write_to` of fixtures.rs, over a file system with a state.
use graph_privacy_showcase_d.Common.{
  Option, none, some, List, [], ◌∷◌, ◌++◌, Result, Error, ok, err, cannot_serialize, cannot_create,
  cannot_write,
}
use graph_privacy_showcase_d.Common.Text.{Text, codes}
use graph_privacy_showcase_d.Common.Effects.{Run, lift, ◌>>=◌}
use graph_privacy_showcase_d.Records.{DisclosedRecord, RecordsManifest}
use graph_privacy_showcase_d.Fixtures.{Lifecycle, GeneratedFixtures}

-- The file system, and `serde_json::to_string_pretty` at the three types that are written.
pub record Store : Type 1 where
  pub World : Type 0
  pub create_dir_all : Text → Run World (Unit {0})
  pub write : Text → Text → Run World (Unit {0})
  pub join : Text → Text → Text
  pub record_pretty : DisclosedRecord → Option Text
  pub manifest_pretty : RecordsManifest → Option Text
  pub lifecycle_pretty : Lifecycle → Option Text

-- The text that `to_string_pretty` made, with its line end.
unfoldable pub to_pretty_json : Option Text → Result Text
to_pretty_json none = err cannot_serialize
to_pretty_json (some s) = ok (s ++ codes "\n")

abbrev pub replace_error {ℓ} : {A : Type ℓ} → Error → Result A → Result A
replace_error e (ok a) = ok a
replace_error e (err _) = err e

module _ {World : Type 0} where
  -- `.with_context(e)?` on a call.
  abbrev pub with_context : {A : Type 0} → Error → Run World A → Run World A
  with_context e m w = let (r, v) = m w in (replace_error e r, v)

module _ (S : Store) where
  open S use {World, create_dir_all, write, join, record_pretty, manifest_pretty, lifecycle_pretty}

  abbrev pub records_path : Text → Text
  records_path build_dir = join build_dir (codes "records")

  abbrev pub manifest_path : Text → Text
  manifest_path build_dir = join build_dir (codes "records-manifest.json")

  abbrev pub lifecycle_path : Text → Text
  lifecycle_path build_dir = join build_dir (codes "lifecycle.json")

  -- The loop over the records.
  unfoldable pub write_records : Text → List (Text × DisclosedRecord) → Run World (Unit {0})
  write_records records_dir [] = lift (ok tt)
  write_records records_dir ((file, r) ∷ rest) = do
    contents ← lift (to_pretty_json (record_pretty r))
    let path = join records_dir file
    done ← with_context (cannot_write path) (write path contents)
    write_records records_dir rest

  unfoldable pub write_to : Text → GeneratedFixtures → Run World (Unit {0})
  write_to build_dir fixtures = do
    let records_dir = records_path build_dir
    created ← with_context (cannot_create records_dir) (create_dir_all records_dir)
    written ← write_records records_dir fixtures.records
    manifest ← lift (to_pretty_json (manifest_pretty fixtures.manifest))
    manifest_written ← write (manifest_path build_dir) manifest
    lifecycle ← lift (to_pretty_json (lifecycle_pretty fixtures.lifecycle))
    write (lifecycle_path build_dir) lifecycle
