-- ===== src/Session/Seed.antt =====
-- `cmd_seed_fixtures` of main.rs, less what it prints, and what it leaves on the disk.
use graph_privacy_showcase_d.Common.{
  ℕ, Bool, true, map, ◌≡◌, refl, sym, ap, ◌∙◌, All, ok, ok-injective,
}
use graph_privacy_showcase_d.Common.Effects.{Run, ◌>>=◌, lift, run-eq-ok, lift-eq-ok}
use graph_privacy_showcase_d.Common.Text.{Text}
use graph_privacy_showcase_d.Common.BTreeMap.{BTreeMap, nat_ord, keys, values}
use graph_privacy_showcase_d.Field.{FieldOps}
use graph_privacy_showcase_d.Field.Codec.{FieldLaws}
use graph_privacy_showcase_d.Records.{DisclosedRecord}
use graph_privacy_showcase_d.Records.Manifest.{Disk, load, load_records}
use graph_privacy_showcase_d.Attestation.{B256}
use graph_privacy_showcase_d.Fixtures.{GeneratedFixtures}
use graph_privacy_showcase_d.Fixtures.Generate.{generate_with_maturity}
use graph_privacy_showcase_d.Fixtures.Made.{IsU64}
use graph_privacy_showcase_d.Fixtures.Spent.{is_made, made_consistent}
use graph_privacy_showcase_d.Fixtures.Write.{Store, write_to, manifest_path, records_path}
use graph_privacy_showcase_d.Fixtures.Files.{StoreLaws, ArePairwiseOther, written_paths}
use graph_privacy_showcase_d.Fixtures.Written.{
  disk_after, IsReadBack, IsManifestReadBack, load-write_to,
}
use graph_privacy_showcase_d.Fixtures.Loaded.{filed_indices, load_records-generate_with_maturity}

pub record SeedFixturesArgs : Type 0 where
  pub out_dir : Text
  pub maturity : ℕ

module _ (F : FieldOps) (keccak256 : Text → B256) (S : Store) where
  unfoldable pub cmd_seed_fixtures : SeedFixturesArgs → Run S.World Bool
  cmd_seed_fixtures args = do
    created ← S.create_dir_all args.out_dir
    generated ← lift (generate_with_maturity F keccak256 args.maturity)
    written ← write_to S args.out_dir generated
    lift (ok true)

  -- Let the fixtures be generated for a maturity of 64 bits, let the paths that are written name
  -- different files, and let serde read back what it prints for the manifest and the records. If
  -- `cmd_seed_fixtures` succeeds, then afterwards `load` returns the manifest, and `load_records`
  -- the records in their order, under the leaf indices of the entries that name a file.
  pub cmd_seed_fixtures_sound :
      (L : FieldLaws F) (K : StoreLaws S) (D : Disk) (args : SeedFixturesArgs)
      (g : GeneratedFixtures) (w v : S.World) (b : Bool)
      → IsU64 args.maturity
      → generate_with_maturity F keccak256 args.maturity ≡ ok g
      → ArePairwiseOther S K (written_paths S K args.out_dir g)
      → IsManifestReadBack S K D g.manifest
      → All (λ (p : Text × DisclosedRecord). IsReadBack S K D p.1) g.records
      → cmd_seed_fixtures args w ≡ (ok b, v)
      → (load (disk_after S K D v) (manifest_path S args.out_dir) ≡ ok g.manifest)
        × (records : BTreeMap ℕ DisclosedRecord) × (load_records
              (disk_after S K D v)
              g.manifest
              (records_path S args.out_dir)
            ≡ ok records)
        × (values records ≡ map (λ (p : Text × DisclosedRecord). p.1) g.records)
        × (keys records ≡ filed_indices g.manifest.entries)
  unfolding cmd_seed_fixtures
  cmd_seed_fixtures_sound L K D args g w v b h e apart back records_back ran =
      let (_, w1, e1, k1) = run-eq-ok (S.create_dir_all args.out_dir) _ w v b ran in
      let (made_now, w2, e2, k2) =
        run-eq-ok (lift (generate_with_maturity F keccak256 args.maturity)) _ w1 v b k1 in
      let (_, w3, e3, k3) = run-eq-ok (write_to S args.out_dir made_now) _ w2 v b k2 in
      let same : made_now ≡ g = ok-injective _ _ (sym (lift-eq-ok _ w1 w2 made_now e2) ∙ e) in
      let last : w3 ≡ v = ap (λ p. p.1) k3 in
      let written : write_to S args.out_dir g w2 ≡ (ok tt, v) =
        ap (λ x. write_to S args.out_dir x w2) (sym same) ∙ e3 ∙ ap (λ x. (ok tt, x)) last in
      let made = is_made F L args.maturity keccak256 g h e in
      let (manifest, all) =
        load-write_to S K D args.out_dir g w2 v apart back records_back (rw made refl)
          (rw made (made_consistent F L args.maturity keccak256)) written in
      let (records, loaded, are, indexed) =
        load_records-generate_with_maturity F L args.maturity (disk_after S K D v)
          (records_path S args.out_dir) keccak256 g h e all in
      (manifest, records, loaded, are, indexed)
