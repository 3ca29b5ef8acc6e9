-- ===== src/Fixtures/Reconciled.antt =====
-- The generated fixtures (fixtures.rs), reconciled with an honest answer (reconcile.rs).
use graph_privacy_showcase_d.Common.{
  ℕ, ◌+◌, true, false, Option, none, some, List, [], ◌∷◌, map, ◌≡◌, refl, ap, arith, All, ok,
  map_results,
}
use graph_privacy_showcase_d.Common.Text.{Text}
use graph_privacy_showcase_d.Common.BTreeMap.{BTreeMap, nat_ord, get, insert}
use graph_privacy_showcase_d.Field.{FieldOps, fr_from_hex, fr_to_hex}
use graph_privacy_showcase_d.Field.Codec.{FieldLaws}
use graph_privacy_showcase_d.Field.Roundtrip.{fr_from_hex-fr_to_hex, normalize_canonical}
use graph_privacy_showcase_d.Merkle.History.{root_history-eq-ok}
use graph_privacy_showcase_d.Anchors.{AnchorSet, CommitmentEntity}
use graph_privacy_showcase_d.Anchors.Ordered.{ordered_commitments, leaf_counts_after_each_call}
use graph_privacy_showcase_d.Records.{DisclosedRecord, ManifestEntry, recompute_commitment}
use graph_privacy_showcase_d.Records.Manifest.{Disk, load_records}
use graph_privacy_showcase_d.Attestation.{B256, pass, passed, OfflineVerification}
use graph_privacy_showcase_d.Reconcile.{ReconcileReport, ReconcileInputs, ChainReader}
use graph_privacy_showcase_d.Reconcile.Checks.{served_from, expected_value, expected_from}
use graph_privacy_showcase_d.Reconcile.Run.{reconcile, optional_cross_check}
use graph_privacy_showcase_d.Reconcile.Verdict.{IsMatched, IsKnown}
use graph_privacy_showcase_d.Reconcile.Soundness.{Reconciled}
use graph_privacy_showcase_d.Reconcile.Complete.{reconcile_pass_complete}
use graph_privacy_showcase_d.Fixtures.{GeneratedFixtures}
use graph_privacy_showcase_d.Fixtures.Generate.{leaf_counts, generate_with_maturity}
use graph_privacy_showcase_d.Fixtures.Made.{
  IsU64, IsU64Leaf, notes, note_of, commitments, entry_for,
}
use graph_privacy_showcase_d.Fixtures.Whole.{made, leaf_no, roots, replayed_ok}
use graph_privacy_showcase_d.Fixtures.Spent.{is_made, recompute_commitment-record_for}
use graph_privacy_showcase_d.Fixtures.Loaded.{record_no, record_map, loaded_map, IsLoadable}

module _ (F : FieldOps) (L : FieldLaws F) (m : ℕ) where
  open F use {Fr}

  -- The texts of a list of elements, numbered from a start.
  abbrev numbered : ℕ → List Fr → BTreeMap ℕ Text
  numbered i [] = []
  numbered i (c ∷ cs) = (i, fr_to_hex F c) ∷ numbered (i + 1) cs

  served_from_ok :
      (i : ℕ) (ordered : List CommitmentEntity) (cs : List Fr)
      → map (λ (c : CommitmentEntity). c.value) ordered ≡ map (fr_to_hex F) cs
      → served_from F i ordered ≡ ok (numbered i cs)
  unfolding served_from
  served_from_ok i [] [] e = refl
  served_from_ok i [] (c ∷ cs) e = absurd (cc)
  served_from_ok i (o ∷ ordered) [] e = absurd (cc)
  served_from_ok i (o ∷ ordered) (c ∷ cs) e =
      let same : o.value ≡ fr_to_hex F c = cc in
      let rest : map (λ (c : CommitmentEntity). c.value) ordered ≡ map (fr_to_hex F) cs = cc in
      rw (same, normalize_canonical F L c, served_from_ok (i + 1) ordered cs rest) refl

  leaves_ok :
      (ordered : List CommitmentEntity) (cs : List Fr)
      → map (λ (c : CommitmentEntity). c.value) ordered ≡ map (fr_to_hex F) cs
      → map_results (λ (c : CommitmentEntity). fr_from_hex F c.value) ordered ≡ ok cs
  leaves_ok [] [] e = refl
  leaves_ok [] (c ∷ cs) e = absurd (cc)
  leaves_ok (o ∷ ordered) [] e = absurd (cc)
  leaves_ok (o ∷ ordered) (c ∷ cs) e =
      let same : o.value ≡ fr_to_hex F c = cc in
      let rest : map (λ (c : CommitmentEntity). c.value) ordered ≡ map (fr_to_hex F) cs = cc in
      rw (same, fr_from_hex-fr_to_hex F L c, leaves_ok ordered cs rest) refl

  abbrev commitment_no : ℕ → Text
  commitment_no i = fr_to_hex F (note_of F L m (leaf_no F L m i))

  hashes :
      IsU64 m
      → (i : ℕ) → IsU64Leaf F L (leaf_no F L m i)
      → recompute_commitment F (record_no F L m i) ≡ ok (commitment_no i)
  hashes h i small = recompute_commitment-record_for F L m h (leaf_no F L m i) small

  expected_ok :
      (served : BTreeMap ℕ Text)
      → IsU64 m
      → expected_from F served (record_map F L m) (map (entry_for F L m) (notes F L)) []
        ≡ ok (numbered 0 (commitments F L m))
  unfolding expected_from expected_value get insert
  expected_ok served h =
      rw
        (
          hashes h 0 (omega arith),
          hashes h 1 (omega arith),
          hashes h 2 (omega arith),
          hashes h 3 (omega arith),
          hashes h 4 (omega arith),
          hashes h 5 (omega arith),
          normalize_canonical F L (note_of F L m (leaf_no F L m 6)),
          normalize_canonical F L (note_of F L m (leaf_no F L m 7)),
        )
        refl

  matched :
      (i : ℕ)
      → recompute_commitment F (record_no F L m i) ≡ ok (commitment_no i)
      → get i (record_map F L m) ≡ some (record_no F L m i)
      → get i (numbered 0 (commitments F L m)) ≡ some (commitment_no i)
      → (r : DisclosedRecord) × (c : Text) × (get i (record_map F L m) ≡ some r)
        × (recompute_commitment F r ≡ ok c)
        × (commitment_no i ≡ c)
        × (get i (numbered 0 (commitments F L m)) ≡ some c)
  matched i hashed there served = (record_no F L m i, commitment_no i, there, hashed, refl, served)

  entries-IsMatched :
      IsU64 m
      → All
          (IsMatched F (numbered 0 (commitments F L m)) (record_map F L m))
          (map (entry_for F L m) (notes F L))
  unfolding get
  entries-IsMatched h = (
    matched 0 (hashes h 0 (omega arith)) refl refl,
    (
      matched 1 (hashes h 1 (omega arith)) refl refl,
      (
        matched 2 (hashes h 2 (omega arith)) refl refl,
        (
          matched 3 (hashes h 3 (omega arith)) refl refl,
          (
            matched 4 (hashes h 4 (omega arith)) refl refl,
            (matched 5 (hashes h 5 (omega arith)) refl refl, (tt, (tt, tt))),
          ),
        ),
      ),
    ),
  )

  module _ (parse_b256 : Text → Option B256) (reader : ChainReader) where
    -- The contract knows the root with this text.
    abbrev pub Knows : Text → Type 0
    Knows root =
        (bytes : B256) × (parse_b256 root ≡ some bytes) × (reader.is_known_root bytes ≡ ok true)

    roots-IsKnown :
        (rs : List Fr)
        → All Knows (map (fr_to_hex F) rs)
        → All (IsKnown F parse_b256 (some reader)) rs
    roots-IsKnown [] h = tt
    roots-IsKnown (r ∷ rs) ((bytes, parsed, known), h) =
        ((reader, bytes, refl, parsed, known), roots-IsKnown rs h)

    module _ (inputs : ReconcileInputs) (ordered : List CommitmentEntity) where
      holds :
          (keccak256 : Text → B256)
          → IsU64 m
          → inputs.manifest ≡ (made F L m keccak256).manifest
          → inputs.records ≡ (record_map F L m)
          → passed inputs.attestation ≡ true
          → ordered_commitments inputs.anchor_set ≡ ok ordered
          → map (λ (c : CommitmentEntity). c.value) ordered ≡ map (fr_to_hex F) (commitments F L m)
          → leaf_counts_after_each_call inputs.anchor_set ≡ ok leaf_counts
          → All Knows (map (fr_to_hex F) (roots F L m))
          → Reconciled F parse_b256 inputs (some reader)
      holds keccak256 h manifest records attested in_order same_values counts known =
          let (in_range, are_roots) =
            root_history-eq-ok F (commitments F L m) leaf_counts (roots F L m)
              (replayed_ok F L m) in
          record {
            ordered = ordered;
            served = numbered 0 (commitments F L m);
            expected = numbered 0 (commitments F L m);
            attested = attested;
            was_ordered = in_order;
            was_served = served_from_ok 0 ordered (commitments F L m) same_values;
            was_expected = rw (manifest, records) (expected_ok _ h);
            are_matched = rw (manifest, records) (entries-IsMatched h);
            same_map = λ k. refl;
            replay = record {
              leaves = commitments F L m;
              served_counts = leaf_counts;
              roots = roots F L m;
              of_values = leaves_ok ordered (commitments F L m) same_values;
              of_calls = counts;
              in_range = in_range;
              are_roots = are_roots;
              are_known = roots-IsKnown (roots F L m) known;
            };
          }

  -- Let the fixtures be generated for a maturity of 64 bits, and let each record be readable from its
  -- file. If the attestation of an answer has passed, the served commitments can be put in order
  -- and are those of the manifest, the served calls have the manifest's boundaries, and the
  -- contract knows the expected roots, then the records load, and `reconcile` without the
  -- cross-check of commitments returns a report that passes.
  pub reconcile-generate_with_maturity :
      (keccak256 : Text → B256) (g : GeneratedFixtures)
      → IsU64 m
      → generate_with_maturity F keccak256 m ≡ ok g
      → (D : Disk) (records_dir : Text) → All (IsLoadable F L m D records_dir) g.records
      → (set : AnchorSet) (ordered : List CommitmentEntity) (attestation : OfflineVerification)
        (deployment contract : Text)
      → passed attestation ≡ true
      → ordered_commitments set ≡ ok ordered
      → map (λ (c : CommitmentEntity). c.value) ordered
        ≡ map (λ (e : ManifestEntry). e.commitment) g.manifest.entries
      → leaf_counts_after_each_call set ≡ ok g.manifest.leaf_counts_after_each_call
      → (parse_b256 : Text → Option B256) (reader : ChainReader)
      → All (Knows parse_b256 reader) g.lifecycle.expected_roots
      → (records : BTreeMap ℕ DisclosedRecord) × (report : ReconcileReport) × (load_records D
            g.manifest records_dir
          ≡ ok records)
        × (reconcile F parse_b256
              record {
                anchor_set = set;
                manifest = g.manifest;
                records = records;
                attestation = attestation;
                deployment = deployment;
                contract = contract;
              }
              (some reader)
              false
            ≡ ok report)
        × (report.result ≡ pass)
  reconcile-generate_with_maturity keccak256 g h e D records_dir loadable set ordered attestation
        deployment contract attested in_order same_values counts parse_b256 reader known =
      let same = is_made F L m keccak256 g h e in
      let loaded : load_records D g.manifest records_dir ≡ ok (record_map F L m) =
        rw same (loaded_map F L m D records_dir keccak256 (rw same at loadable)) in
      let inputs : ReconcileInputs = record {
        anchor_set = set;
        manifest = g.manifest;
        records = (record_map F L m);
        attestation = attestation;
        deployment = deployment;
        contract = contract;
      } in
      let (report, returned, passes) =
        reconcile_pass_complete F parse_b256 inputs (some reader) false
          (holds parse_b256 reader inputs ordered keccak256 h
            (ap (λ (x : GeneratedFixtures). x.manifest) same) refl attested in_order
            (rw same at same_values) (rw same at counts) (rw same at known))
          (none, []) (unfold optional_cross_check in refl) refl in
      (record_map F L m, report, loaded, returned, passes)
