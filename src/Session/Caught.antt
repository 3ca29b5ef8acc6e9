-- ===== src/Session/Caught.antt =====
-- What a verdict that the tampering was caught establishes, for each tripwire of `cmd_tamper` (main.rs).
use graph_privacy_showcase_d.Common.{
  not-true, not-false, ℕ, true, false, not, Option, some, ◌≡◌, ◌≢◌, ok, context, bail_if, >>=-eq-ok,
  context-eq-ok, bail_if-eq-ok, ok-injective, is_some, no_record_argument, record_not_listed,
  record_not_loaded, resigned_not_verified, needs_chain, root_replay_passed,
}
use graph_privacy_showcase_d.Common.Text.{Text}
use graph_privacy_showcase_d.Common.BTreeMap.{BTreeMap, nat_ord, get, insert}
use graph_privacy_showcase_d.Anchors.{AnchorSet}
use graph_privacy_showcase_d.Anchors.Parse.{parse_anchor_set}
use graph_privacy_showcase_d.Records.{
  DisclosedRecord, ManifestEntry, RecordsManifest, recompute_commitment,
}
use graph_privacy_showcase_d.Records.Manifest.{load_records}
use graph_privacy_showcase_d.Attestation.{AuditBundle, passed}
use graph_privacy_showcase_d.Attestation.Offline.{verify_offline, IsBound, verify_offline_iff}
use graph_privacy_showcase_d.Reconcile.{ReconcileReport, ChainReader}
use graph_privacy_showcase_d.Reconcile.Run.{reconcile}
use graph_privacy_showcase_d.Tamper.{
  RecordField, alter_record, alter_one_response_byte, resign_altered_anchors,
}
use graph_privacy_showcase_d.Tamper.Flip.{alter_one_response_byte_sound}
use graph_privacy_showcase_d.Tamper.Records.{AlteredAs, alter_record_sound}
use graph_privacy_showcase_d.Session.Audit.{
  System, AuditArgs, open_chain, inputs_of, find_entry, report_passed, any_root_failed,
  tamper_record, tamper_byte, tamper_resigned,
}

module _ (S : System) where
  open S use {field, attestations, json, disk}

  module _ (args : AuditArgs S) where
    -- An audit of a manifest, some records and a bundle that ends with a failure.
    pub record IsFailing (manifest : RecordsManifest) (records : BTreeMap ℕ DisclosedRecord)
        (bundle : AuditBundle) : Type 0 where
      pub set : AnchorSet
      pub chain : Option ChainReader
      pub report : ReconcileReport
      pub is_served : parse_anchor_set json S.from_value bundle.response ≡ ok set
      pub was_opened : open_chain S args.rpc_url args.contract set ≡ ok chain
      pub was_reconciled :
          reconcile field S.parse_b256 (inputs_of S args set manifest records bundle) chain false
          ≡ ok report
      pub failed : report_passed report ≡ false

    -- A record of the manifest was altered in the field, and the audit of the altered records fails.
    pub record IsRecordCaught (record_file : Option Text) (altered_field : RecordField)
        (bundle : AuditBundle) (manifest : RecordsManifest) : Type 0 where
      pub file : Text
      pub entry : ManifestEntry
      pub records : BTreeMap ℕ DisclosedRecord
      pub original : DisclosedRecord
      pub altered : DisclosedRecord
      pub was_named : record_file ≡ some file
      pub was_listed : find_entry file manifest.entries ≡ some entry
      pub were_loaded : load_records disk manifest args.records_dir ≡ ok records
      pub was_held : get entry.leaf_index records ≡ some original
      pub was_altered : AlteredAs field original altered_field altered
      pub differs : altered ≢ original
      pub audit : IsFailing manifest (insert entry.leaf_index altered records) bundle

    pub tamper_record_caught :
        (record_file : Option Text) (altered_field : RecordField) (bundle : AuditBundle)
        (manifest : RecordsManifest)
        → tamper_record S args record_file altered_field bundle manifest ≡ ok true
        → IsRecordCaught record_file altered_field bundle manifest
    unfolding tamper_record
    tamper_record_caught record_file altered_field bundle manifest e =
        let (file, e1, k1) = >>=-eq-ok (context no_record_argument record_file) _ e in
        let (records, e2, k2) = >>=-eq-ok (load_records disk manifest args.records_dir) _ k1 in
        let (entry, e3, k3) =
          >>=-eq-ok (context record_not_listed (find_entry file manifest.entries)) _ k2 in
        let (original, e4, k4) =
          >>=-eq-ok (context record_not_loaded (get entry.leaf_index records)) _ k3 in
        let (altered, e5, k5) = >>=-eq-ok (alter_record field original altered_field) _ k4 in
        let (_, _, k6) = >>=-eq-ok (recompute_commitment field original) _ k5 in
        let (_, _, k7) = >>=-eq-ok (recompute_commitment field altered) _ k6 in
        let (set, e8, k8) = >>=-eq-ok (parse_anchor_set json S.from_value bundle.response) _ k7 in
        let (chain, e9, k9) = >>=-eq-ok (open_chain S args.rpc_url args.contract set) _ k8 in
        let held = insert entry.leaf_index altered records in
        let (report, e10, k10) =
          >>=-eq-ok
            (reconcile field S.parse_b256 (inputs_of S args set manifest held bundle) chain false) _
            k9 in
        let (altered_as, differs) = alter_record_sound field original altered altered_field e5 in
        record {
          file = file;
          entry = entry;
          records = records;
          original = original;
          altered = altered;
          was_named = context-eq-ok _ _ e1;
          was_listed = context-eq-ok _ _ e3;
          were_loaded = e2;
          was_held = context-eq-ok _ _ e4;
          was_altered = altered_as;
          differs = differs;
          audit = record {
            set = set;
            chain = chain;
            report = report;
            is_served = e8;
            was_opened = e9;
            was_reconciled = e10;
            failed = not-true _ (ok-injective _ _ k10);
          };
        }

    -- One byte of the response was altered, and the altered bundle is not bound.
    abbrev pub IsByteCaught : AuditBundle → Type 0
    IsByteCaught bundle =
        (response : Text) × (alter_one_response_byte bundle.response ≡ ok response)
        × (response ≢ bundle.response)
        × ¬ IsBound attestations (record bundle { response = response }) args.domain

    pub tamper_byte_unbound :
        (bundle : AuditBundle) → tamper_byte S args bundle ≡ ok true → IsByteCaught bundle
    unfolding tamper_byte
    tamper_byte_unbound bundle e =
        let (response, e1, k1) = >>=-eq-ok (alter_one_response_byte bundle.response) _ e in
        let (_, _, _, _, _, _, changed) =
          alter_one_response_byte_sound bundle.response response e1 in
        let altered = record bundle { response = response } in
        let fails = not-true _ (ok-injective _ _ k1) in
        (
          response,
          e1,
          changed,
          λ bound. absurd (cc ((verify_offline_iff attestations altered args.domain).1 bound)),
        )

    -- The anchors were altered and signed again, the new bundle is bound, a chain was read, and the audit
    -- fails, in a replayed root at least.
    pub record IsLieCaught (signer : attestations.Signer) (bundle : AuditBundle)
        (manifest : RecordsManifest) : Type 0 where
      pub liar : AuditBundle
      pub records : BTreeMap ℕ DisclosedRecord
      pub was_signed :
          resign_altered_anchors json S.edit attestations bundle args.domain signer ≡ ok liar
      pub is_bound : IsBound attestations liar args.domain
      pub were_loaded : load_records disk manifest args.records_dir ≡ ok records
      pub audit : IsFailing manifest records liar
      pub has_chain : is_some audit.chain ≡ true
      pub root_failed : any_root_failed audit.report.root_replay ≡ true

    pub tamper_resigned-IsLieCaught :
        (signer : attestations.Signer) (bundle : AuditBundle) (manifest : RecordsManifest)
        → tamper_resigned S args signer bundle manifest ≡ ok true
        → IsLieCaught signer bundle manifest
    unfolding tamper_resigned
    tamper_resigned-IsLieCaught signer bundle manifest e =
        let (liar, e1, k1) =
          >>=-eq-ok (resign_altered_anchors json S.edit attestations bundle args.domain signer) _
            e in
        let verified = passed (verify_offline attestations liar args.domain) in
        let (_, e2, k2) = >>=-eq-ok (bail_if (not verified) resigned_not_verified) _ k1 in
        let (set, e3, k3) = >>=-eq-ok (parse_anchor_set json S.from_value liar.response) _ k2 in
        let (chain, e4, k4) = >>=-eq-ok (open_chain S args.rpc_url args.contract set) _ k3 in
        let (_, e5, k5) = >>=-eq-ok (bail_if (not (is_some chain)) needs_chain) _ k4 in
        let (records, e6, k6) = >>=-eq-ok (load_records disk manifest args.records_dir) _ k5 in
        let (report, e7, k7) =
          >>=-eq-ok
            (reconcile field S.parse_b256 (inputs_of S args set manifest records liar) chain false)
            _ k6 in
        let (_, e8, k8) =
          >>=-eq-ok (bail_if (not (any_root_failed report.root_replay)) root_replay_passed) _ k7 in
        record {
          liar = liar;
          records = records;
          was_signed = e1;
          is_bound =
              (verify_offline_iff attestations liar args.domain).0
                (not-false _ (bail_if-eq-ok _ _ e2));
          were_loaded = e6;
          audit = record {
            set = set;
            chain = chain;
            report = report;
            is_served = e3;
            was_opened = e4;
            was_reconciled = e7;
            failed = not-true _ (ok-injective _ _ k8);
          };
          has_chain = not-false _ (bail_if-eq-ok _ _ e5);
          root_failed = not-false _ (bail_if-eq-ok _ _ e8);
        }
