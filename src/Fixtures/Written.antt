-- ===== src/Fixtures/Written.antt =====
-- The files that `write_to` of fixtures.rs leaves are those that `load` and `load_records` of records.rs
-- read back.
use graph_privacy_showcase_d.Common.{true, some, List, [], ◌∷◌, ◌++◌, ◌≡◌, refl, All, ok}
use graph_privacy_showcase_d.Common.Text.{Text, codes, text_eq, text_eq_refl}
use graph_privacy_showcase_d.Records.{DisclosedRecord, RecordsManifest, check_internal_consistency}
use graph_privacy_showcase_d.Records.Manifest.{Disk, load, load_record, manifest_schema}
use graph_privacy_showcase_d.Fixtures.{GeneratedFixtures}
use graph_privacy_showcase_d.Fixtures.Write.{Store, records_path, manifest_path, write_to}
use graph_privacy_showcase_d.Fixtures.Files.{
  StoreLaws, ArePairwiseOther, IsWritten, written_paths, write_to-AreFiled,
}

module _ (S : Store) (K : StoreLaws S) where
  open S use {World, join, record_pretty, manifest_pretty}
  open K use {read}

  module _ (D : Disk) where
    -- The file system after the run, as `load` and `load_records` see it.
    abbrev pub disk_after : World → Disk
    disk_after v = record D { read_to_string = read v; join = join }

    -- serde reads the printed text back, with the line end that `to_pretty_json` adds.
    abbrev pub IsReadBack : DisclosedRecord → Type 0
    IsReadBack r =
        (s : Text) → record_pretty r ≡ some s → D.record_from_str (s ++ codes "\n") ≡ some r

    abbrev pub IsManifestReadBack : RecordsManifest → Type 0
    IsManifestReadBack manifest =
        (s : Text)
        → manifest_pretty manifest ≡ some s
        → D.manifest_from_str (s ++ codes "\n") ≡ some manifest

    abbrev pub Loads : Text → World → Text × DisclosedRecord → Type 0
    Loads dir v (file, r) = load_record (disk_after v) (join dir file) ≡ ok r

    IsWritten-Loads :
        (dir : Text) (v : World) (rs : List (Text × DisclosedRecord))
        → All (λ (p : Text × DisclosedRecord). IsReadBack p.1) rs
        → All (IsWritten S K dir v) rs
        → All (Loads dir v) rs
    unfolding load_record
    IsWritten-Loads dir v [] h all = tt
    IsWritten-Loads dir v ((file, r) ∷ rest) (q, h) ((s, printed, held), all) =
        (rw (held, q s printed) refl, IsWritten-Loads dir v rest h all)

    -- Let the paths that `write_to` writes to name different files, and let serde read back what it prints
    -- for the manifest and for the records. If the manifest has its schema and passes its check,
    -- then after `write_to` has succeeded `load` returns the manifest, and each record is read from
    -- the file that it was written to.
    pub load-write_to :
        (build_dir : Text) (g : GeneratedFixtures) (w v : World)
        → ArePairwiseOther S K (written_paths S K build_dir g)
        → IsManifestReadBack g.manifest
        → All (λ (p : Text × DisclosedRecord). IsReadBack p.1) g.records
        → g.manifest.schema ≡ manifest_schema
        → check_internal_consistency g.manifest ≡ ok tt
        → write_to S build_dir g w ≡ (ok tt, v)
        → (load (disk_after v) (manifest_path S build_dir) ≡ ok g.manifest)
          × All (Loads (records_path S build_dir) v) g.records
    unfolding load
    load-write_to build_dir g w v apart back records_back schema consistent e =
        let (all, (s, printed, held), _) = write_to-AreFiled S K build_dir g w v apart e in
        let known : text_eq g.manifest.schema manifest_schema ≡ true =
          rw schema (text_eq_refl manifest_schema) in
        (
          rw (held, back s printed, known, consistent) refl,
          IsWritten-Loads (records_path S build_dir) v g.records records_back all,
        )
