-- ===== src/Reconcile/Tampering.antt =====
-- What makes `reconcile` fail: altered records, anchors without an explanation, no chain (reconcile.rs).
use graph_privacy_showcase_d.Common.{
  some-injective, ℕ, zero, suc, ◌+◌, ◌<◌, ◌≤◌, Bool, true, Option, none, some, List, [], ◌∷◌, ◌++◌,
  ◌≡◌, ◌≢◌, refl, sym, ap, ◌∙◌, arith, length, All, is_empty, ok, >>=-eq-ok, ok-injective,
}
use graph_privacy_showcase_d.Common.Text.{Text, codes, text_eq_sound}
use graph_privacy_showcase_d.Common.BTreeMap.{
  BTreeMap, nat_ord, get, insert, keys, range_from, get-insert,
}
use graph_privacy_showcase_d.Field.{FieldOps}
use graph_privacy_showcase_d.Merkle.History.{AreRoots}
use graph_privacy_showcase_d.Anchors.{CommitmentEntity}
use graph_privacy_showcase_d.Anchors.Ordered.{ordered_commitments, leaf_counts_after_each_call}
use graph_privacy_showcase_d.Anchors.Indexed.{ordered_commitments_sound}
use graph_privacy_showcase_d.Records.{DisclosedRecord, ManifestEntry, recompute_commitment}
use graph_privacy_showcase_d.Records.Laws.{length-perm}
use graph_privacy_showcase_d.Attestation.{B256, CheckOutcome, pass, fail}
use graph_privacy_showcase_d.Reconcile.{
  OnChainCrossCheck, Failure, ReconcileReport, ReconcileInputs, ChainReader,
}
use graph_privacy_showcase_d.Reconcile.Checks.{
  served_from, expected_value, expected_from, cross_check, account,
}
use graph_privacy_showcase_d.Reconcile.Run.{call_counts, optional_cross_check, reconcile}
use graph_privacy_showcase_d.Reconcile.Accounting.{keys-served_from}
use graph_privacy_showcase_d.Reconcile.Verdict.{MatchedAs, IsMatched, IsKnown, is_empty-append}
use graph_privacy_showcase_d.Reconcile.Soundness.{
  reconcile-Trace, outcome_pass, push_if-not, reconcile_pass_sound,
}
use native.Mathlib.Decide.{ℕ_discrete}

fail_of_not_pass : (o : CheckOutcome) → o ≢ pass → o ≡ fail
fail_of_not_pass pass h = absurd (h refl)
fail_of_not_pass fail h = refl

All-middle {ℓ κ} :
    {A : Type ℓ} (P : A → Type κ) (xs : List A) (y : A) (zs : List A) → All P (xs ++ y ∷ zs) → P y
All-middle P [] y zs h = h.0
All-middle P (x ∷ xs) y zs h = All-middle P xs y zs h.1

range-get {ℓ} :
    {V : Type ℓ} (m : BTreeMap ℕ V) (start n k : ℕ)
    → keys m ≡ range_from start n
    → start ≤ k
    → k < start + n
    → get k m ≢ none
unfolding get
range-get m start zero k h le lt e = omega arith
range-get [] start (suc n) k h le lt e = cc
range-get ((j, v) ∷ m) start (suc n) k h le lt e = elim (ℕ_discrete k j) [
  | yes same ↦ ground arith
  | no other ↦
      let first : j ≡ start = cc in
      range-get m (start + 1) n k (cc) (omega arith) (omega arith) (ground arith)
]

module _ (F : FieldOps) (served : BTreeMap ℕ Text) (records : BTreeMap ℕ DisclosedRecord) where
  -- The disclosure explains no index that no entry has.
  expected_from-other :
      (k : ℕ) (entries : List ManifestEntry) (acc expected : BTreeMap ℕ Text)
      → expected_from F served records entries acc ≡ ok expected
      → All (λ (e : ManifestEntry). e.leaf_index ≢ k) entries
      → get k expected ≡ get k acc
  unfolding expected_from
  expected_from-other k [] acc expected e h = ap (get k) (sym (ok-injective acc expected e))
  expected_from-other k (entry ∷ entries) acc expected e (ne, h) =
      let (value, e1, k1) = >>=-eq-ok (expected_value F served records entry entry.class) _ e in
      expected_from-other k entries (insert entry.leaf_index value acc) expected k1 h
      ∙ ground (arith, get-insert entry.leaf_index k value acc)

  matched_contradiction :
      (entry : ManifestEntry) (o : Option Text) (file : Text) (r : DisclosedRecord)
      (commitment : Text)
      → MatchedAs F served records entry o
      → o ≡ some file
      → get entry.leaf_index records ≡ some r
      → recompute_commitment F r ≡ ok commitment
      → ¬ ((entry.commitment ≡ commitment) × (get entry.leaf_index served ≡ some commitment))
      → ⊥
  matched_contradiction entry none file r commitment m filed loaded hashed bad = cc
  matched_contradiction entry (some f) file r commitment (r', c, l, h, m, s) filed loaded hashed
        bad =
      let same_record : r' ≡ r = some-injective (sym l ∙ loaded) in
      let same : c ≡ commitment =
        ok-injective _ _ (sym h ∙ ap (recompute_commitment F) same_record ∙ hashed) in
      bad (m ∙ same, s ∙ ap some same)

module _ (F : FieldOps) (parse_b256 : Text → Option B256) where
  open F use {Fr}

  -- Without an endpoint no root is known.
  no_root :
      (leaves : List Fr) (counts : List ℕ) (roots : List Fr)
      → AreRoots F leaves counts roots
      → All (IsKnown F parse_b256 none) roots
      → counts ≢ []
      → ⊥
  no_root leaves [] roots h known ne = ne refl
  no_root leaves (count ∷ counts) [] h known ne = h
  no_root leaves (count ∷ counts) (root ∷ roots) h ((reader, bytes, e, _, _), known) ne = cc

module _ (F : FieldOps) (parse_b256 : Text → Option B256) (inputs : ReconcileInputs) (verify : Bool)
    (report : ReconcileReport) where
  module _ (chain : Option ChainReader) where
    -- Let a manifest entry name a file, and let a record be loaded for its leaf. If the commitment
    -- that the plaintext hashes to is not both what the entry states and what the served log holds
    -- at this leaf, a report is a failure.
    pub altered_record_fails :
        (ordered : List CommitmentEntity) (served : BTreeMap ℕ Text)
        (before after : List ManifestEntry) (entry : ManifestEntry) (file commitment : Text)
        (r : DisclosedRecord)
        → reconcile F parse_b256 inputs chain verify ≡ ok report
        → ordered_commitments inputs.anchor_set ≡ ok ordered
        → served_from F 0 ordered ≡ ok served
        → inputs.manifest.entries ≡ before ++ entry ∷ after
        → entry.record_file ≡ some file
        → get entry.leaf_index inputs.records ≡ some r
        → recompute_commitment F r ≡ ok commitment
        → ¬ ((entry.commitment ≡ commitment) × (get entry.leaf_index served ≡ some commitment))
        → report.result ≡ fail
    altered_record_fails ordered served before after entry file commitment r e eo es split filed
          loaded hashed bad =
        fail_of_not_pass report.result λ p.
          let all = reconcile_pass_sound F parse_b256 inputs chain verify report e p in
          let same_order : all.ordered ≡ ordered = ok-injective _ _ (sym all.was_ordered ∙ eo) in
          let same : all.served ≡ served =
            ok-injective _ _ (sym all.was_served ∙ ap (served_from F 0) same_order ∙ es) in
          matched_contradiction F served inputs.records entry entry.record_file file r commitment
            (All-middle (IsMatched F served inputs.records) before entry after
              (rw (← split, ← same) all.are_matched))
            filed loaded hashed bad

    -- If an index of the served log is that of no manifest entry, a report is a failure.
    pub unexplained_anchor_fails :
        (k : ℕ)
        → reconcile F parse_b256 inputs chain verify ≡ ok report
        → k < length inputs.anchor_set.commitments
        → All (λ (e : ManifestEntry). e.leaf_index ≢ k) inputs.manifest.entries
        → report.result ≡ fail
    unexplained_anchor_fails k e lt other = fail_of_not_pass report.result λ p.
        let all = reconcile_pass_sound F parse_b256 inputs chain verify report e p in
        let (perm, _) = ordered_commitments_sound inputs.anchor_set all.ordered all.was_ordered in
        let count : length all.ordered ≡ length inputs.anchor_set.commitments = length-perm perm in
        range-get all.served 0 (length all.ordered) k
          (keys-served_from F 0 all.ordered all.served all.was_served) (omega arith) (omega arith)
          (all.same_map k
            ∙ expected_from-other F all.served inputs.records k inputs.manifest.entries []
                all.expected all.was_expected other
            ∙ (unfold get in refl))

  -- Without an endpoint of the chain a report is a failure, where there is a call boundary to
  -- replay.
  pub no_endpoint_fails :
      (counts : List ℕ)
      → reconcile F parse_b256 inputs none verify ≡ ok report
      → leaf_counts_after_each_call inputs.anchor_set ≡ ok counts
      → call_counts counts inputs.manifest.leaf_counts_after_each_call ≢ []
      → report.result ≡ fail
  no_endpoint_fails counts e counted some_call = fail_of_not_pass report.result λ p.
      let all = reconcile_pass_sound F parse_b256 inputs none verify report e p in
      let same : all.replay.served_counts ≡ counts =
        ok-injective _ _ (sym all.replay.of_calls ∙ counted) in
      no_root F parse_b256 all.replay.leaves
        (call_counts counts inputs.manifest.leaf_counts_after_each_call) all.replay.roots
        (rw (← same) all.replay.are_roots) all.replay.are_known some_call

module _ (F : FieldOps) where
  -- What the contract stores at an index is what is served there.
  abbrev pub IsStored : ChainReader → ℕ → Text → Type 0
  IsStored reader idx value =
      (stored : B256) × (reader.commitment_at idx ≡ ok stored)
      × (codes "0x" ++ F.hex_encode stored ≡ value)

module _ (F : FieldOps) (parse_b256 : Text → Option B256) (reader : ChainReader) where
  cross_check-quiet :
      (served : BTreeMap ℕ Text) (crossed : List OnChainCrossCheck × List Failure)
      → cross_check F parse_b256 reader served ≡ ok crossed
      → is_empty crossed.1 ≡ true
      → All (λ e. IsStored F reader e.0 e.1) served
  unfolding cross_check
  cross_check-quiet [] crossed e h = tt
  cross_check-quiet ((idx, value) ∷ served) crossed e h =
      let (stored, e1, k1) = >>=-eq-ok (reader.commitment_at idx) _ e in
      let (later, e2, k2) = >>=-eq-ok (cross_check F parse_b256 reader served) _ k1 in
      let (here, rest) =
        is_empty-append _ later.1 (ap (λ p. is_empty p.1) (ok-injective _ _ k2) ∙ h) in
      (
        (stored, e1, text_eq_sound _ _ (push_if-not _ _ here)),
        cross_check-quiet served later e2 rest,
      )

  -- If the cross-check is asked for and a report passes, the contract stores under every index of
  -- the served log the 32 bytes that are served there.
  pub cross_check_sound :
      (inputs : ReconcileInputs) (report : ReconcileReport)
      → reconcile F parse_b256 inputs (some reader) true ≡ ok report
      → report.result ≡ pass
      → (ordered : List CommitmentEntity) × (served : BTreeMap ℕ Text) × (ordered_commitments
            inputs.anchor_set
          ≡ ok ordered)
        × (served_from F 0 ordered ≡ ok served)
        × All (λ e. IsStored F reader e.0 e.1) served
  unfolding optional_cross_check
  cross_check_sound inputs report e p =
      let t = reconcile-Trace F parse_b256 inputs (some reader) true report e in
      let quiet = outcome_pass _ (sym t.outcome ∙ p) in
      let (_, r1) = is_empty-append _ _ quiet in
      let (_, r2) = is_empty-append t.recorded.1 _ r1 in
      let (_, r3) = is_empty-append (account t.served t.expected inputs.manifest.entries).1 _ r2 in
      let (_, r4) = is_empty-append t.replayed.1 t.crossed.1 r3 in
      let (crossed, e1, k1) =
        >>=-eq-ok (cross_check F parse_b256 reader t.served) _ t.was_crossed in
      (
        t.ordered,
        t.served,
        t.was_ordered,
        t.was_served,
        cross_check-quiet t.served crossed e1 (ap (λ c. is_empty c.1) (ok-injective _ _ k1) ∙ r4),
      )
