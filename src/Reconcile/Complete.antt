-- ===== src/Reconcile/Complete.antt =====
-- When `reconcile` passes: the converse of `Soundness` (reconcile.rs).
use graph_privacy_showcase_d.Common.{
  ℕ, ◌+◌, Bool, true, Option, none, some, List, [], ◌∷◌, ◌++◌, ◌≡◌, refl, sym, ap, ◌∙◌, arith,
  length, All, is_empty, ok, ok-injective, Result-cases, inl, inr,
}
use graph_privacy_showcase_d.Common.Text.{Text, text_eq, text_eq_refl}
use graph_privacy_showcase_d.Common.BTreeMap.{BTreeMap, nat_ord}
use graph_privacy_showcase_d.Field.{FieldOps}
use graph_privacy_showcase_d.Merkle.{root_history}
use graph_privacy_showcase_d.Merkle.History.{AreRoots, InRange, in_range}
use graph_privacy_showcase_d.Anchors.{AnchorSet, CommitmentEntity}
use graph_privacy_showcase_d.Records.{DisclosedRecord, ManifestEntry, RecordsManifest}
use graph_privacy_showcase_d.Attestation.{B256, pass}
use graph_privacy_showcase_d.Reconcile.{
  RecordCheck, RootCheck, OnChainCrossCheck, Failure, ReconcileReport, ReconcileInputs, ChainReader,
}
use graph_privacy_showcase_d.Reconcile.Checks.{
  check_record, check_entry, check_records, account, known_on, check_root, check_roots,
}
use graph_privacy_showcase_d.Reconcile.Run.{
  call_counts, replay_roots, optional_cross_check, reconcile,
}
use graph_privacy_showcase_d.Reconcile.Accounting.{account_pass_iff, keys-served_from}
use graph_privacy_showcase_d.Reconcile.Verdict.{MatchedAs, IsMatched, IsKnown}
use graph_privacy_showcase_d.Reconcile.Soundness.{Replay, Reconciled}

is_empty-both {ℓ} :
    {A : Type ℓ} (xs ys : List A)
    → is_empty xs ≡ true
    → is_empty ys ≡ true
    → is_empty (xs ++ ys) ≡ true
is_empty-both [] ys h k = k
is_empty-both (x ∷ xs) ys h k = absurd (cc)

module _ (F : FieldOps) (served : BTreeMap ℕ Text) (records : BTreeMap ℕ DisclosedRecord) where
  -- The checks of some entries, with no failure.
  abbrev Quiet : List ManifestEntry → Type 0
  Quiet entries =
      (recorded : List RecordCheck × List Failure) × (check_records F served records entries
        ≡ ok recorded)
      × (is_empty recorded.1 ≡ true)

  check_entry_quiet :
      (entry : ManifestEntry) (o : Option Text)
      → MatchedAs F served records entry o
      → (here : List RecordCheck × List Failure) × (check_entry F served records entry o ≡ ok here)
        × (is_empty here.1 ≡ true)
  unfolding check_entry check_record
  check_entry_quiet entry none h = (([], []), refl, refl)
  check_entry_quiet entry (some file) (r, commitment, loaded, hashed, stated, held) =
      let same : text_eq entry.commitment commitment ≡ true = rw stated (text_eq_refl commitment) in
      elim (Result-cases (check_entry F served records entry (some file))) [
        | inl (here, e) ↦ (here, e, ground (arith, text_eq_refl commitment))
        | inr (bad, e) ↦ absurd (ground arith)
      ]

  check_records-Quiet :
      (entries : List ManifestEntry) → All (IsMatched F served records) entries → Quiet entries
  unfolding check_records
  check_records-Quiet [] h = (([], []), refl, refl)
  check_records-Quiet (entry ∷ entries) (p, h) =
      let (here, e1, q1) = check_entry_quiet entry entry.record_file p in
      let (rest, e2, q2) = check_records-Quiet entries h in
      ((here.0 ++ rest.0, here.1 ++ rest.1), rw (e1, e2) refl, is_empty-both here.1 rest.1 q1 q2)

module _ (F : FieldOps) (parse_b256 : Text → Option B256) (chain : Option ChainReader) where
  open F use {Fr}

  check_root_quiet :
      (call_order : List Text) (i count : ℕ) (root : Fr)
      → IsKnown F parse_b256 chain root
      → (here : RootCheck × List Failure) × (check_root F parse_b256 chain call_order i count root
          ≡ ok here)
        × (is_empty here.1 ≡ true)
  unfolding check_root known_on
  check_root_quiet call_order i count root (reader, bytes, there, parsed, known) =
      elim (Result-cases (check_root F parse_b256 chain call_order i count root)) [
        | inl (here, e) ↦ (here, e, ground arith)
        | inr (bad, e) ↦ absurd (ground arith)
      ]

  check_roots_quiet :
      (call_order : List Text) (i : ℕ) (counts : List ℕ) (roots : List Fr)
      → All (IsKnown F parse_b256 chain) roots
      → (replayed : List RootCheck × List Failure) × (check_roots F parse_b256 chain call_order i
            counts roots
          ≡ ok replayed)
        × (is_empty replayed.1 ≡ true)
  unfolding check_roots
  check_roots_quiet call_order i [] roots h = (([], []), refl, refl)
  check_roots_quiet call_order i (count ∷ counts) [] h = (([], []), refl, refl)
  check_roots_quiet call_order i (count ∷ counts) (root ∷ roots) (p, h) =
      let (here, e1, q1) = check_root_quiet call_order i count root p in
      let (rest, e2, q2) = check_roots_quiet call_order (i + 1) counts roots h in
      ((here.0 ∷ rest.0, here.1 ++ rest.1), rw (e1, e2) refl, is_empty-both here.1 rest.1 q1 q2)

account_quiet :
    (served expected : BTreeMap ℕ Text) (entries : List ManifestEntry)
    → (account served expected entries).0.outcome ≡ pass
    → is_empty (account served expected entries).1 ≡ true
unfolding account
account_quiet served expected entries h = ground arith

module _ (F : FieldOps) (parse_b256 : Text → Option B256) where
  root_history_of :
      (leaves : List F.Fr) (counts : List ℕ) (roots : List F.Fr)
      → All (InRange (length leaves)) counts
      → AreRoots F leaves counts roots
      → root_history F leaves counts ≡ ok roots
  unfolding root_history
  root_history_of leaves [] [] h a = refl
  root_history_of leaves [] (root ∷ roots) h a = absurd a
  root_history_of leaves (count ∷ counts) [] h a = absurd a
  root_history_of leaves (count ∷ counts) (root ∷ roots) (p, h) (built, a) =
      rw ((in_range (length leaves) count).1 p, built, root_history_of leaves counts roots h a) refl

  replay_roots-Replay :
      (set : AnchorSet) (manifest : RecordsManifest) (ordered : List CommitmentEntity)
      (chain : Option ChainReader)
      → Replay F parse_b256 set manifest ordered chain
      → (replayed : List RootCheck × List Failure) × (replay_roots F parse_b256 set manifest ordered
            chain
          ≡ ok replayed)
        × (is_empty replayed.1 ≡ true)
  unfolding replay_roots
  replay_roots-Replay set manifest ordered chain r =
      let counts = call_counts r.served_counts manifest.leaf_counts_after_each_call in
      let (replayed, e, quiet) =
        check_roots_quiet F parse_b256 chain manifest.call_order 0 counts r.roots r.are_known in
      (
        replayed,
        rw (r.of_values, r.of_calls, root_history_of r.leaves counts r.roots r.in_range r.are_roots)
            e,
        quiet,
      )

  -- If the conditions hold that a report which passes establishes, and the cross-check with the
  -- chain, where it is asked for, finds no difference, then `reconcile` returns a report, and it
  -- passes.
  pub reconcile_pass_complete :
      (inputs : ReconcileInputs) (chain : Option ChainReader) (verify : Bool)
      (holds : Reconciled F parse_b256 inputs chain)
      (crossed : Option (List OnChainCrossCheck) × List Failure)
      → optional_cross_check F parse_b256 chain verify holds.served ≡ ok crossed
      → is_empty crossed.1 ≡ true
      → (report : ReconcileReport) × (reconcile F parse_b256 inputs chain verify ≡ ok report)
        × (report.result ≡ pass)
  unfolding reconcile
  reconcile_pass_complete inputs chain verify holds crossed e k =
      let entries = inputs.manifest.entries in
      let (recorded, e1, q1) =
        check_records-Quiet F holds.served inputs.records entries holds.are_matched in
      let (replayed, e2, q2) =
        replay_roots-Replay inputs.anchor_set inputs.manifest holds.ordered chain holds.replay in
      let accounted = account_quiet holds.served holds.expected entries (
        (account_pass_iff holds.served holds.expected entries (length holds.ordered)
            (keys-served_from F 0 holds.ordered holds.served holds.was_served)).1
          holds.same_map) in
      let q = is_empty-both recorded.1 _ q1 (
        is_empty-both (account holds.served holds.expected entries).1 _ accounted
          (is_empty-both replayed.1 crossed.1 q2 k)) in
      elim (Result-cases (reconcile F parse_b256 inputs chain verify)) [
        | inl (report, returned) ↦
            let made =
              rw (holds.was_ordered, holds.was_served, e1, holds.was_expected, e2, e) at returned in
            (
              report,
              returned,
              ap (λ (r : ReconcileReport). r.result) (sym (ok-injective _ report made))
                  ∙ rw (holds.attested, q) refl,
            )
        | inr (bad, failed) ↦
            let never =
              rw (holds.was_ordered, holds.was_served, e1, holds.was_expected, e2, e) at failed in
            absurd (cc never)
      ]
