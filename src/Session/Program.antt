-- ===== src/Session/Program.antt =====
-- `cmd_reconcile`, `run` and `main` of main.rs, less what they print. The command is an argument, as the
-- parser of arguments gives it.
use graph_privacy_showcase_d.Common.{Bool, true, false, Option, Result, ok, err}
use graph_privacy_showcase_d.Common.Effects.{Run, ◌>>=◌, lift}
use graph_privacy_showcase_d.Common.Text.{Text}
use graph_privacy_showcase_d.Attestation.{DomainConfig}
use graph_privacy_showcase_d.Gateway.{Net}
use graph_privacy_showcase_d.Session.Audit.{System, AuditArgs, load_bundle, audit, report_passed}
use graph_privacy_showcase_d.Session.Output.{
  DomainArgs, config, Output, store, reconcile_to_json, write_json,
}
use graph_privacy_showcase_d.Session.Commands.{
  FetchArgs, VerifyArgs, ConsistencyArgs, cmd_fetch, cmd_verify, cmd_consistency,
}
use graph_privacy_showcase_d.Session.Seed.{SeedFixturesArgs, cmd_seed_fixtures}
use graph_privacy_showcase_d.Session.Tripwires.{TamperArgs, cmd_tamper}

pub record ReconcileArgs : Type 0 where
  pub bundle : Text
  pub manifest : Text
  pub records_dir : Text
  pub rpc_url : Option Text
  pub contract : Option Text
  pub verify_onchain : Bool
  pub domain : DomainArgs
  pub report : Text

pub data Command : Type 0 where
  seed_fixtures : SeedFixturesArgs → Command
  fetch_bundle : FetchArgs → Command
  verify_attestation : VerifyArgs → Command
  reconcile_records : ReconcileArgs → Command
  tamper_with : TamperArgs → Command
  compare_answers : ConsistencyArgs → Command

pub data ExitCode : Type 0 where
  success failure : ExitCode

unfoldable pub exit_code : Result Bool → ExitCode
exit_code (ok true) = success
exit_code (ok false) = failure
exit_code (err e) = failure

module _ (S : System) where
  abbrev pub reconcile_args : ReconcileArgs → DomainConfig S.attestations → AuditArgs S
  reconcile_args args domain = record {
    bundle = args.bundle;
    manifest = args.manifest;
    records_dir = args.records_dir;
    rpc_url = args.rpc_url;
    contract = args.contract;
    domain = domain;
  }

  module _ (N : Net) (O : Output S N) where
    unfoldable pub cmd_reconcile : ReconcileArgs → Run N.World Bool
    cmd_reconcile args = do
      bundle ← lift (load_bundle S args.bundle)
      domain ← lift (config S args.domain)
      report ← lift (audit S (reconcile_args args domain) args.verify_onchain bundle)
      printed ← lift (reconcile_to_json S N O report)
      written ← write_json S N O args.report printed
      lift (ok (report_passed report))

    unfoldable pub run : S.attestations.Signer → Command → Run N.World Bool
    run signer (seed_fixtures args) =
        cmd_seed_fixtures S.field S.attestations.keccak256 (store S N O) args
    run signer (fetch_bundle args) = cmd_fetch S N O args
    run signer (verify_attestation args) = cmd_verify S N O args
    run signer (reconcile_records args) = cmd_reconcile args
    run signer (tamper_with args) = lift (cmd_tamper S args signer)
    run signer (compare_answers args) = cmd_consistency S N O args

    -- The exit code of the program, and the world after it.
    unfoldable pub main : S.attestations.Signer → Command → N.World → ExitCode × N.World
    main signer command w = let (r, v) = run signer command w in (exit_code r, v)
