-- ===== src/Session/Outcome.antt =====
-- What the audit of `cmd_reconcile` and the tripwire of the re-signed anchors establish (main.rs).
use graph_privacy_showcase_d.Common.{
  true_is_not_false, not-false, ℕ, ◌+◌, Bool, true, false, not, Option, List, [], ◌∷◌, ◌≡◌, refl,
  sym, ap, ◌∙◌, arith, All, ok, bail_if, get_elem?, is_some, is_empty, map_results, >>=-eq-ok,
  ok-injective, bail_if-eq-ok, resigned_not_verified, needs_chain, root_replay_passed, Bool-cases,
  inl, inr, Result-cases,
}
use graph_privacy_showcase_d.Common.Text.{Text}
use graph_privacy_showcase_d.Common.BTreeMap.{BTreeMap}
use graph_privacy_showcase_d.Field.{FieldOps, fr_from_hex, fr_to_hex}
use graph_privacy_showcase_d.Merkle.{root_history}
use graph_privacy_showcase_d.Anchors.{AnchorSet, CommitmentEntity}
use graph_privacy_showcase_d.Anchors.Ordered.{leaf_counts_after_each_call}
use graph_privacy_showcase_d.Anchors.Parse.{parse_anchor_set, IsServed, parse_anchor_set_iff}
use graph_privacy_showcase_d.Records.{DisclosedRecord, RecordsManifest}
use graph_privacy_showcase_d.Records.Manifest.{load, load_records}
use graph_privacy_showcase_d.Records.Laws.{IsFiled}
use graph_privacy_showcase_d.Records.Loading.{IsLoaded, load_records_sound}
use graph_privacy_showcase_d.Attestation.{
  B256, AuditBundle, CheckOutcome, pass, fail, is_pass, is_fail, passed,
}
use graph_privacy_showcase_d.Attestation.Offline.{verify_offline, IsBound, verify_offline_iff}
use graph_privacy_showcase_d.Reconcile.{
  ReconcileReport, ReconcileInputs, ChainReader, RootCheck, Failure, root_not_replayed,
}
use graph_privacy_showcase_d.Reconcile.Checks.{
  push_if, known_on, root_outcome, check_root, check_roots, call_label, account,
}
use graph_privacy_showcase_d.Reconcile.Run.{call_counts, replay_roots, reconcile}
use graph_privacy_showcase_d.Reconcile.Verdict.{is_empty-append}
use graph_privacy_showcase_d.Reconcile.Soundness.{
  reconcile-Trace, Reconciled, reconcile_pass_sound, outcome_pass,
}
use graph_privacy_showcase_d.Tamper.{resign_altered_anchors}
use graph_privacy_showcase_d.Session.Audit.{
  System, AuditArgs, load_bundle, open_chain, inputs_of, audit, report_passed, any_root_failed,
  tamper_resigned,
}

pub is_pass→≡ : (o : CheckOutcome) → is_pass o ≡ true → o ≡ pass
is_pass→≡ pass h = refl
is_pass→≡ fail h = absurd (cc)

module _ (S : System) where
  -- What the files, the indexer and the chain hold when an audit passes.
  pub record Audited (args : AuditArgs S) : Type 0 where
    pub bundle : AuditBundle
    pub set : AnchorSet
    pub manifest : RecordsManifest
    pub records : BTreeMap ℕ DisclosedRecord
    pub chain : Option ChainReader
    pub was_saved : load_bundle S args.bundle ≡ ok bundle
    pub is_bound : IsBound S.attestations bundle args.domain
    pub is_served : IsServed S.json S.from_value bundle.response set
    pub was_loaded : load S.disk args.manifest ≡ ok manifest
    pub are_filed : All IsFiled manifest.entries
    pub are_loaded : All (IsLoaded S.disk args.records_dir records) manifest.entries
    pub was_opened : open_chain S args.rpc_url args.contract set ≡ ok chain
    pub reconciled :
        Reconciled S.field S.parse_b256 (inputs_of S args set manifest records bundle) chain

  pub audit_sound :
      (args : AuditArgs S) (verify_onchain : Bool) (bundle : AuditBundle) (report : ReconcileReport)
      → load_bundle S args.bundle ≡ ok bundle
      → audit S args verify_onchain bundle ≡ ok report
      → report_passed report ≡ true
      → Audited args
  unfolding audit
  audit_sound args verify_onchain bundle report e1 e p =
      let (set, e2, k2) = >>=-eq-ok (parse_anchor_set S.json S.from_value bundle.response) _ e in
      let (manifest, e3, k3) = >>=-eq-ok (load S.disk args.manifest) _ k2 in
      let (records, e4, k4) = >>=-eq-ok (load_records S.disk manifest args.records_dir) _ k3 in
      let (chain, e5, k5) = >>=-eq-ok (open_chain S args.rpc_url args.contract set) _ k4 in
      let inputs = inputs_of S args set manifest records bundle in
      let (_, filed, loaded) =
        load_records_sound S.disk args.manifest args.records_dir manifest records e3 e4 in
      let all =
        reconcile_pass_sound S.field S.parse_b256 inputs chain verify_onchain report k5
          (is_pass→≡ report.result p) in
      record {
        bundle = bundle;
        set = set;
        manifest = manifest;
        records = records;
        chain = chain;
        was_saved = e1;
        is_bound = (verify_offline_iff S.attestations bundle args.domain).0 all.attested;
        is_served = (parse_anchor_set_iff S.json S.from_value bundle.response set).0 e2;
        was_loaded = e3;
        are_filed = filed;
        are_loaded = loaded;
        was_opened = e5;
        reconciled = all;
      }

module _ (F : FieldOps) (parse_b256 : Text → Option B256) where
  open F use {Fr}

  failed_root :
      (chain : Option ChainReader) (call_order : List Text) (i count : ℕ) (root : Fr)
      (here : RootCheck × List Failure)
      → check_root F parse_b256 chain call_order i count root ≡ ok here
      → is_empty here.1 ≡ true
      → is_fail here.0.outcome ≡ false
  unfolding check_root
  failed_root chain call_order i count root here e q =
      elim (Result-cases (known_on F parse_b256 chain (fr_to_hex F root))) [
        | inr (bad, failed) ↦ absurd (ground arith)
        | inl (known, asked) ↦
            let label = call_label (get_elem? call_order i) i in
            let made : here.1
                ≡ push_if (is_fail (root_outcome F parse_b256 known))
                    (root_not_replayed label count) =
              ground arith in
            let shown : here.0.outcome ≡ root_outcome F parse_b256 known = ground arith in
            ap is_fail shown ∙ not_pushed _ _ (ap is_empty (sym made) ∙ q)
      ]
    where
      not_pushed : (b : Bool) (f : Failure) → is_empty (push_if b f) ≡ true → b ≡ false
      not_pushed true f h = absurd (cc)
      not_pushed false f h = refl

  failed_roots :
      (chain : Option ChainReader) (call_order : List Text) (i : ℕ) (counts : List ℕ)
      (roots : List Fr) (replayed : List RootCheck × List Failure)
      → check_roots F parse_b256 chain call_order i counts roots ≡ ok replayed
      → is_empty replayed.1 ≡ true
      → any_root_failed replayed.0 ≡ false
  unfolding check_roots
  failed_roots chain call_order i [] roots replayed e q = rw (sym (ok-injective _ _ e)) refl
  failed_roots chain call_order i (count ∷ counts) [] replayed e q =
      rw (sym (ok-injective _ _ e)) refl
  failed_roots chain call_order i (count ∷ counts) (root ∷ roots) replayed e q =
      let (here, e1, k1) = >>=-eq-ok (check_root F parse_b256 chain call_order i count root) _ e in
      let (rest, e2, k2) =
        >>=-eq-ok (check_roots F parse_b256 chain call_order (i + 1) counts roots) _ k1 in
      let same = ok-injective _ _ k2 in
      let (quiet, later) = is_empty-append here.1 rest.1 (ap (λ r. is_empty r.1) same ∙ q) in
      rw (sym same, failed_root chain call_order i count root here e1 quiet)
        (failed_roots chain call_order (i + 1) counts roots rest e2 later)

  failed_replay :
      (set : AnchorSet) (manifest : RecordsManifest) (ordered : List CommitmentEntity)
      (chain : Option ChainReader) (replayed : List RootCheck × List Failure)
      → replay_roots F parse_b256 set manifest ordered chain ≡ ok replayed
      → is_empty replayed.1 ≡ true
      → any_root_failed replayed.0 ≡ false
  unfolding replay_roots
  failed_replay set manifest ordered chain replayed e q =
      let (leaves, e1, k1) =
        >>=-eq-ok (map_results (λ (c : CommitmentEntity). fr_from_hex F c.value) ordered) _ e in
      let (served_counts, e2, k2) = >>=-eq-ok (leaf_counts_after_each_call set) _ k1 in
      let counts = call_counts served_counts manifest.leaf_counts_after_each_call in
      let (roots, e3, k3) = >>=-eq-ok (root_history F leaves counts) _ k2 in
      failed_roots chain manifest.call_order 0 counts roots replayed k3 q

  -- A report in which a root fails is a failure.
  failed_root-not-passed :
      (inputs : ReconcileInputs) (chain : Option ChainReader) (verify : Bool)
      (report : ReconcileReport)
      → reconcile F parse_b256 inputs chain verify ≡ ok report
      → any_root_failed report.root_replay ≡ true
      → report_passed report ≡ false
  failed_root-not-passed inputs chain verify report e failed =
      let t = reconcile-Trace F parse_b256 inputs chain verify report e in
      elim (Bool-cases (report_passed report)) [
        | inr h ↦ h
        | inl h ↦
            let quiet = outcome_pass _ (sym t.outcome ∙ is_pass→≡ report.result h) in
            let (_, r1) = is_empty-append _ _ quiet in
            let (_, r2) = is_empty-append t.recorded.1 _ r1 in
            let (_, r3) =
              is_empty-append (account t.served t.expected inputs.manifest.entries).1 _ r2 in
            let (q, _) = is_empty-append t.replayed.1 t.crossed.1 r3 in
            let none_failed =
              failed_replay inputs.anchor_set inputs.manifest t.ordered chain t.replayed
                t.was_replayed q in
            absurd
              (true_is_not_false (sym failed ∙ ap any_root_failed t.replay_reported ∙ none_failed))
      ]

module _ (S : System) where
  -- If the tripwire of the re-signed anchors ends with a verdict and no error, the verdict is that
  -- the tampering was caught.
  pub tamper_resigned_caught :
      (args : AuditArgs S) (signer : S.attestations.Signer) (bundle : AuditBundle)
      (manifest : RecordsManifest) (caught : Bool)
      → tamper_resigned S args signer bundle manifest ≡ ok caught
      → caught ≡ true
  unfolding tamper_resigned
  tamper_resigned_caught args signer bundle manifest caught e =
      let (liar, _, k1) =
        >>=-eq-ok (resign_altered_anchors S.json S.edit S.attestations bundle args.domain signer) _
          e in
      let (_, _, k2) =
        >>=-eq-ok
          (bail_if (not (passed (verify_offline S.attestations liar args.domain)))
            resigned_not_verified)
          _ k1 in
      let (set, _, k3) = >>=-eq-ok (parse_anchor_set S.json S.from_value liar.response) _ k2 in
      let (chain, _, k4) = >>=-eq-ok (open_chain S args.rpc_url args.contract set) _ k3 in
      let (_, _, k5) = >>=-eq-ok (bail_if (not (is_some chain)) needs_chain) _ k4 in
      let (records, _, k6) = >>=-eq-ok (load_records S.disk manifest args.records_dir) _ k5 in
      let inputs = inputs_of S args set manifest records liar in
      let (report, e7, k7) = >>=-eq-ok (reconcile S.field S.parse_b256 inputs chain false) _ k6 in
      let (_, e8, k8) =
        >>=-eq-ok (bail_if (not (any_root_failed report.root_replay)) root_replay_passed) _ k7 in
      sym (ok-injective _ _ k8)
      ∙ ap not (
          failed_root-not-passed S.field S.parse_b256 inputs chain false report e7
            (not-false _ (bail_if-eq-ok _ _ e8)))
