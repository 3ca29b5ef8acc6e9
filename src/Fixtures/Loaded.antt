-- ===== src/Fixtures/Loaded.antt =====
-- The generated fixtures (fixtures.rs), read back from their files (records.rs).
use graph_privacy_showcase_d.Common.{
  ℕ, Option, none, some, List, [], ◌∷◌, ◌++◌, map, ◌≡◌, refl, All, ok,
}
use graph_privacy_showcase_d.Common.Text.{Text}
use graph_privacy_showcase_d.Common.BTreeMap.{BTreeMap, nat_ord, insert, keys, values}
use graph_privacy_showcase_d.Field.{FieldOps}
use graph_privacy_showcase_d.Field.Codec.{FieldLaws}
use graph_privacy_showcase_d.Records.{DisclosedRecord, ManifestEntry}
use graph_privacy_showcase_d.Records.Manifest.{
  Disk, load_record, load_entry, load_entries, load_records,
}
use graph_privacy_showcase_d.Attestation.{B256}
use graph_privacy_showcase_d.Fixtures.{GeneratedFixtures}
use graph_privacy_showcase_d.Fixtures.Generate.{generate_with_maturity}
use graph_privacy_showcase_d.Fixtures.Made.{IsU64, record_for}
use graph_privacy_showcase_d.Fixtures.Whole.{made, leaf_no}
use graph_privacy_showcase_d.Fixtures.Spent.{is_made}

-- The leaf indices of the entries that name a record file.
abbrev index_if_filed : ℕ → Option Text → List ℕ
index_if_filed i none = []
index_if_filed i (some file) = i ∷ []

abbrev pub filed_indices : List ManifestEntry → List ℕ
filed_indices [] = []
filed_indices (entry ∷ rest) =
    index_if_filed entry.leaf_index entry.record_file ++ filed_indices rest

module _ (F : FieldOps) (L : FieldLaws F) (m : ℕ) where
  open F use {Fr}

  abbrev pub record_no : ℕ → DisclosedRecord
  record_no i = record_for F L m (leaf_no F L m i)

  abbrev pub record_map : BTreeMap ℕ DisclosedRecord
  record_map =
      (0, record_no 0)
      ∷ (1, record_no 1)
      ∷ (2, record_no 2)
      ∷ (3, record_no 3)
      ∷ (4, record_no 4)
      ∷ (5, record_no 5)
      ∷ []

  module _ (D : Disk) (records_dir : Text) where
    abbrev pub IsLoadable : Text × DisclosedRecord → Type 0
    IsLoadable (file, r) = load_record D (D.join records_dir file) ≡ ok r

    pub loaded_map :
        (keccak256 : Text → B256)
        → All IsLoadable (made F L m keccak256).records
        → load_records D (made F L m keccak256).manifest records_dir ≡ ok record_map
    unfolding load_records load_entries load_entry insert
    loaded_map keccak256 (l0, (l1, (l2, (l3, (l4, (l5, _)))))) = rw (l0, l1, l2, l3, l4, l5) refl

    -- If the records generated for a maturity of 64 bits can be read from the files that they are
    -- named for, `load_records` returns exactly these records, in their order, and their keys are the
    -- leaf indices of the manifest's entries that name a file.
    pub load_records-generate_with_maturity :
        (keccak256 : Text → B256) (g : GeneratedFixtures)
        → IsU64 m
        → generate_with_maturity F keccak256 m ≡ ok g
        → All IsLoadable g.records
        → (records : BTreeMap ℕ DisclosedRecord) × (load_records D g.manifest records_dir
            ≡ ok records)
          × (values records ≡ map (λ (p : Text × DisclosedRecord). p.1) g.records)
          × (keys records ≡ filed_indices g.manifest.entries)
    load_records-generate_with_maturity keccak256 g h e =
        rw (is_made F L m keccak256 g h e)
          (λ loadable. (record_map, loaded_map keccak256 loadable, refl, refl))
