-- ===== src/Session/Tampered.antt =====
-- What a success of `cmd_tamper` establishes, by its tripwire (main.rs).
use graph_privacy_showcase_d.Common.{true, Option, ◌≡◌, ok, >>=-eq-ok}
use graph_privacy_showcase_d.Common.Text.{Text}
use graph_privacy_showcase_d.Common.BTreeMap.{nat_ord}
use graph_privacy_showcase_d.Records.{RecordsManifest}
use graph_privacy_showcase_d.Records.Manifest.{load}
use graph_privacy_showcase_d.Attestation.{AuditBundle, DomainConfig}
use graph_privacy_showcase_d.Tamper.{
  Tripwire, altered_record, altered_response_byte, resigned_altered_anchors, RecordField,
}
use graph_privacy_showcase_d.Session.Audit.{System, AuditArgs, load_bundle, is_caught}
use graph_privacy_showcase_d.Session.Output.{config}
use graph_privacy_showcase_d.Session.Tripwires.{TamperArgs, tripwire_of, tamper_args, cmd_tamper}
use graph_privacy_showcase_d.Session.Caught.{
  IsRecordCaught, tamper_record_caught, IsByteCaught, tamper_byte_unbound, IsLieCaught,
  tamper_resigned-IsLieCaught,
}

module _ (S : System) where
  open S use {attestations, disk}

  module _ (args : AuditArgs S) where
    -- What each tripwire establishes.
    abbrev pub CaughtBy :
        Tripwire
        → Option Text
        → RecordField
        → attestations.Signer
        → AuditBundle
        → RecordsManifest
        → Type 0
    CaughtBy altered_record record_file altered_field signer bundle manifest =
        IsRecordCaught S args record_file altered_field bundle manifest
    CaughtBy altered_response_byte record_file altered_field signer bundle manifest =
        IsByteCaught S args bundle
    CaughtBy resigned_altered_anchors record_file altered_field signer bundle manifest =
        IsLieCaught S args signer bundle manifest

    is_caught_sound :
        (tripwire : Tripwire) (record_file : Option Text) (altered_field : RecordField)
        (signer : attestations.Signer) (bundle : AuditBundle) (manifest : RecordsManifest)
        → is_caught S args record_file altered_field signer bundle manifest tripwire ≡ ok true
        → CaughtBy tripwire record_file altered_field signer bundle manifest
    unfolding is_caught
    is_caught_sound altered_record record_file altered_field signer bundle manifest e =
        tamper_record_caught S args record_file altered_field bundle manifest e
    is_caught_sound altered_response_byte record_file altered_field signer bundle manifest e =
        tamper_byte_unbound S args bundle e
    is_caught_sound resigned_altered_anchors record_file altered_field signer bundle manifest e =
        tamper_resigned-IsLieCaught S args signer bundle manifest e

  -- The tampering that was tried, on which bundle and manifest, in which domain.
  pub record IsCaught (args : TamperArgs) (signer : attestations.Signer) : Type 0 where
    pub domain : DomainConfig attestations
    pub bundle : AuditBundle
    pub manifest : RecordsManifest
    pub in_domain : config S args.domain ≡ ok domain
    pub was_saved : load_bundle S args.bundle ≡ ok bundle
    pub was_loaded : load disk args.manifest ≡ ok manifest
    pub caught :
        CaughtBy
          (tamper_args S args domain)
          (tripwire_of args.tripwire)
          args.record_file
          args.field
          signer
          bundle
          manifest

  pub cmd_tamper_sound :
      (args : TamperArgs) (signer : attestations.Signer)
      → cmd_tamper S args signer ≡ ok true
      → IsCaught args signer
  unfolding cmd_tamper
  cmd_tamper_sound args signer e =
      let (domain, e1, k1) = >>=-eq-ok (config S args.domain) _ e in
      let (bundle, e2, k2) = >>=-eq-ok (load_bundle S args.bundle) _ k1 in
      let (manifest, e3, k3) = >>=-eq-ok (load disk args.manifest) _ k2 in
      record {
        domain = domain;
        bundle = bundle;
        manifest = manifest;
        in_domain = e1;
        was_saved = e2;
        was_loaded = e3;
        caught =
            is_caught_sound (tamper_args S args domain) (tripwire_of args.tripwire) args.record_file
              args.field signer bundle manifest k3;
      }
