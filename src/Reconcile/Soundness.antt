-- ===== src/Reconcile/Soundness.antt =====
-- What `reconcile` computes on success, and what a report that passes establishes (reconcile.rs).
use graph_privacy_showcase_d.Common.{
  ℕ, suc, Bool, true, false, not, Option, List, [], ◌∷◌, ◌++◌, ◌≡◌, refl, sym, ap, ◌∙◌, arith,
  length, All, is_empty, ok, map_results, >>=-eq-ok, ok-injective,
}
use graph_privacy_showcase_d.Common.Text.{Text}
use graph_privacy_showcase_d.Common.BTreeMap.{BTreeMap, nat_ord}
use graph_privacy_showcase_d.Field.{FieldOps, fr_from_hex}
use graph_privacy_showcase_d.Merkle.{root_history}
use graph_privacy_showcase_d.Merkle.History.{AreRoots, InRange, root_history-eq-ok}
use graph_privacy_showcase_d.Anchors.{AnchorSet, CommitmentEntity}
use graph_privacy_showcase_d.Anchors.Ordered.{ordered_commitments, leaf_counts_after_each_call}
use graph_privacy_showcase_d.Records.{ManifestEntry, RecordsManifest}
use graph_privacy_showcase_d.Attestation.{B256, pass, passed}
use graph_privacy_showcase_d.Reconcile.{
  RootCheck, RecordCheck, OnChainCrossCheck, Failure, attestation_failed, ReconcileReport,
  ReconcileInputs, ChainReader,
}
use graph_privacy_showcase_d.Reconcile.Checks.{
  outcome_of, push_if, served_from, check_records, expected_from, account,
}
use graph_privacy_showcase_d.Reconcile.Run.{
  call_counts, replay_roots, optional_cross_check, reconcile,
}
use graph_privacy_showcase_d.Reconcile.Accounting.{SameMap, account_pass_iff, keys-served_from}
use graph_privacy_showcase_d.Reconcile.Verdict.{
  IsMatched, IsKnown, is_empty-append, check_records-quiet, check_roots-quiet,
}

pub outcome_pass : (b : Bool) → outcome_of b ≡ pass → b ≡ true
outcome_pass true h = refl
outcome_pass false h = absurd (cc)

pub push_if-not : (b : Bool) (f : Failure) → is_empty (push_if (not b) f) ≡ true → b ≡ true
push_if-not true f h = refl
push_if-not false f h = absurd (cc)

module _ (F : FieldOps) (parse_b256 : Text → Option B256) where
  open F use {Fr}

  -- The intermediate results of a run.
  pub record Trace (inputs : ReconcileInputs) (chain : Option ChainReader) (verify : Bool)
      (report : ReconcileReport) : Type 0 where
    pub ordered : List CommitmentEntity
    pub served : BTreeMap ℕ Text
    pub expected : BTreeMap ℕ Text
    pub recorded : List RecordCheck × List Failure
    pub replayed : List RootCheck × List Failure
    pub crossed : Option (List OnChainCrossCheck) × List Failure
    pub was_ordered : ordered_commitments inputs.anchor_set ≡ ok ordered
    pub was_served : served_from F 0 ordered ≡ ok served
    pub was_recorded : check_records F served inputs.records inputs.manifest.entries ≡ ok recorded
    pub was_expected :
        expected_from F served inputs.records inputs.manifest.entries [] ≡ ok expected
    pub was_replayed :
        replay_roots F parse_b256 inputs.anchor_set inputs.manifest ordered chain ≡ ok replayed
    pub was_crossed : optional_cross_check F parse_b256 chain verify served ≡ ok crossed
    pub replay_reported : report.root_replay ≡ replayed.0
    pub outcome :
        report.result
        ≡ outcome_of (
            is_empty (
              push_if (not (passed inputs.attestation)) attestation_failed
              ++ (recorded.1
                  ++ ((account served expected inputs.manifest.entries).1
                      ++ (replayed.1 ++ crossed.1)))))

  pub reconcile-Trace :
      (inputs : ReconcileInputs) (chain : Option ChainReader) (verify : Bool)
      (report : ReconcileReport)
      → reconcile F parse_b256 inputs chain verify ≡ ok report
      → Trace inputs chain verify report
  unfolding reconcile
  reconcile-Trace inputs chain verify report e =
      let (ordered, e1, k1) = >>=-eq-ok (ordered_commitments inputs.anchor_set) _ e in
      let (served, e2, k2) = >>=-eq-ok (served_from F 0 ordered) _ k1 in
      let (recorded, e3, k3) =
        >>=-eq-ok (check_records F served inputs.records inputs.manifest.entries) _ k2 in
      let (expected, e4, k4) =
        >>=-eq-ok (expected_from F served inputs.records inputs.manifest.entries []) _ k3 in
      let (replayed, e5, k5) =
        >>=-eq-ok (replay_roots F parse_b256 inputs.anchor_set inputs.manifest ordered chain) _
          k4 in
      let (crossed, e6, k6) =
        >>=-eq-ok (optional_cross_check F parse_b256 chain verify served) _ k5 in
      record {
        ordered = ordered;
        served = served;
        expected = expected;
        recorded = recorded;
        replayed = replayed;
        crossed = crossed;
        was_ordered = e1;
        was_served = e2;
        was_recorded = e3;
        was_expected = e4;
        was_replayed = e5;
        was_crossed = e6;
        replay_reported = ap (λ (r : ReconcileReport). r.root_replay) (sym (ok-injective _ _ k6));
        outcome = ap (λ (r : ReconcileReport). r.result) (sym (ok-injective _ _ k6));
      }

  -- What a replay of the roots without a failure has found, by the leaves and the call boundaries it used.
  pub record Replay (set : AnchorSet) (manifest : RecordsManifest) (ordered : List CommitmentEntity)
      (chain : Option ChainReader) : Type 0 where
    pub leaves : List Fr
    pub served_counts : List ℕ
    pub roots : List Fr
    pub of_values :
        map_results (λ (c : CommitmentEntity). fr_from_hex F c.value) ordered ≡ ok leaves
    pub of_calls : leaf_counts_after_each_call set ≡ ok served_counts
    pub in_range :
        All
          (InRange (length leaves))
          (call_counts served_counts manifest.leaf_counts_after_each_call)
    pub are_roots :
        AreRoots F leaves (call_counts served_counts manifest.leaf_counts_after_each_call) roots
    pub are_known : All (IsKnown F parse_b256 chain) roots

  length-AreRoots :
      (leaves : List Fr) (counts : List ℕ) (roots : List Fr)
      → AreRoots F leaves counts roots
      → length counts ≡ length roots
  length-AreRoots leaves [] [] h = refl
  length-AreRoots leaves [] (root ∷ roots) h = absurd h
  length-AreRoots leaves (count ∷ counts) [] h = absurd h
  length-AreRoots leaves (count ∷ counts) (root ∷ roots) (p, h) =
      ap suc (length-AreRoots leaves counts roots h)

  replay_roots-quiet :
      (set : AnchorSet) (manifest : RecordsManifest) (ordered : List CommitmentEntity)
      (chain : Option ChainReader) (replayed : List RootCheck × List Failure)
      → replay_roots F parse_b256 set manifest ordered chain ≡ ok replayed
      → is_empty replayed.1 ≡ true
      → Replay set manifest ordered chain
  unfolding replay_roots
  replay_roots-quiet set manifest ordered chain replayed e h =
      let (leaves, e1, k1) =
        >>=-eq-ok (map_results (λ (c : CommitmentEntity). fr_from_hex F c.value) ordered) _ e in
      let (served_counts, e2, k2) = >>=-eq-ok (leaf_counts_after_each_call set) _ k1 in
      let counts = call_counts served_counts manifest.leaf_counts_after_each_call in
      let (roots, e3, k3) = >>=-eq-ok (root_history F leaves counts) _ k2 in
      let (in_range, are) = root_history-eq-ok F leaves counts roots e3 in
      record {
        leaves = leaves;
        served_counts = served_counts;
        roots = roots;
        of_values = e1;
        of_calls = e2;
        in_range = in_range;
        are_roots = are;
        are_known =
            check_roots-quiet F parse_b256 chain manifest.call_order 0 counts roots replayed
              (length-AreRoots leaves counts roots are) k3 h;
      }

  -- What a report that passes has established of its inputs.
  pub record Reconciled (inputs : ReconcileInputs) (chain : Option ChainReader) : Type 0 where
    pub ordered : List CommitmentEntity
    pub served : BTreeMap ℕ Text
    pub expected : BTreeMap ℕ Text
    pub attested : passed inputs.attestation ≡ true
    pub was_ordered : ordered_commitments inputs.anchor_set ≡ ok ordered
    pub was_served : served_from F 0 ordered ≡ ok served
    pub was_expected :
        expected_from F served inputs.records inputs.manifest.entries [] ≡ ok expected
    pub are_matched : All (IsMatched F served inputs.records) inputs.manifest.entries
    pub same_map : SameMap served expected
    pub replay : Replay inputs.anchor_set inputs.manifest ordered chain

  account-quiet :
      (served expected : BTreeMap ℕ Text) (entries : List ManifestEntry)
      → is_empty (account served expected entries).1 ≡ true
      → (account served expected entries).0.outcome ≡ pass
  unfolding account
  account-quiet served expected entries h = ground arith

  -- If `reconcile` returns a report whose result is a pass, then the verification of the
  -- attestation that it was given has passed; the served commitments could be put in order; for
  -- every manifest entry that names a file, the plaintext of the loaded record hashes to the
  -- commitment of the entry and of the served log; the served log and the disclosure hold the same
  -- commitment, or both none, at every index; every call boundary is within the served log; and the
  -- roots of the prefixes at the call boundaries are all known to the contract.
  pub reconcile_pass_sound :
      (inputs : ReconcileInputs) (chain : Option ChainReader) (verify : Bool)
      (report : ReconcileReport)
      → reconcile F parse_b256 inputs chain verify ≡ ok report
      → report.result ≡ pass
      → Reconciled inputs chain
  reconcile_pass_sound inputs chain verify report e p =
      let t = reconcile-Trace inputs chain verify report e in
      let quiet = outcome_pass _ (sym t.outcome ∙ p) in
      let (q1, r1) = is_empty-append _ _ quiet in
      let (q2, r2) = is_empty-append t.recorded.1 _ r1 in
      let (q3, r3) = is_empty-append (account t.served t.expected inputs.manifest.entries).1 _ r2 in
      let (q4, q5) = is_empty-append t.replayed.1 t.crossed.1 r3 in
      record {
        ordered = t.ordered;
        served = t.served;
        expected = t.expected;
        attested = push_if-not (passed inputs.attestation) attestation_failed q1;
        was_ordered = t.was_ordered;
        was_served = t.was_served;
        was_expected = t.was_expected;
        are_matched =
            check_records-quiet F t.served inputs.records inputs.manifest.entries t.recorded
              t.was_recorded q2;
        same_map =
            (account_pass_iff t.served t.expected inputs.manifest.entries (length t.ordered)
                (keys-served_from F 0 t.ordered t.served t.was_served)).0
              (account-quiet t.served t.expected inputs.manifest.entries q3);
        replay =
            replay_roots-quiet inputs.anchor_set inputs.manifest t.ordered chain t.replayed
              t.was_replayed q4;
      }
