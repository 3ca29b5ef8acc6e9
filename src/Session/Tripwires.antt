-- ===== src/Session/Tripwires.antt =====
-- `cmd_tamper` of main.rs, less what it prints.
use graph_privacy_showcase_d.Common.{Bool, Option, Result, ◌>>=◌}
use graph_privacy_showcase_d.Common.Text.{Text}
use graph_privacy_showcase_d.Attestation.{DomainConfig}
use graph_privacy_showcase_d.Records.Manifest.{load}
use graph_privacy_showcase_d.Tamper.{
  Tripwire, altered_record, altered_response_byte, resigned_altered_anchors, RecordField,
}
use graph_privacy_showcase_d.Session.Audit.{System, AuditArgs, load_bundle, is_caught}
use graph_privacy_showcase_d.Session.Output.{DomainArgs, config}

pub data TripwireArg : Type 0 where
  altered_record_arg altered_response_byte_arg resigned_altered_anchors_arg : TripwireArg

-- `From<TripwireArg> for Tripwire`
unfoldable pub tripwire_of : TripwireArg → Tripwire
tripwire_of altered_record_arg = altered_record
tripwire_of altered_response_byte_arg = altered_response_byte
tripwire_of resigned_altered_anchors_arg = resigned_altered_anchors

pub record TamperArgs : Type 0 where
  pub tripwire : TripwireArg
  pub record_file : Option Text
  pub field : RecordField
  pub bundle : Text
  pub manifest : Text
  pub records_dir : Text
  pub rpc_url : Option Text
  pub contract : Option Text
  pub domain : DomainArgs

module _ (S : System) where
  abbrev pub tamper_args : TamperArgs → DomainConfig S.attestations → AuditArgs S
  tamper_args args domain = record {
    bundle = args.bundle;
    manifest = args.manifest;
    records_dir = args.records_dir;
    rpc_url = args.rpc_url;
    contract = args.contract;
    domain = domain;
  }

  -- The result is whether the tampering was caught.
  unfoldable pub cmd_tamper : TamperArgs → S.attestations.Signer → Result Bool
  cmd_tamper args signer = do
    let tripwire = tripwire_of args.tripwire
    domain ← config S args.domain
    bundle ← load_bundle S args.bundle
    manifest ← load S.disk args.manifest
    is_caught S (tamper_args args domain) args.record_file args.field signer bundle manifest
        tripwire
