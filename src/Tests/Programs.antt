-- ===== src/Tests/Programs.antt =====
-- The program on the command that reconciles, and on one that tampers.
use graph_privacy_showcase_d.Common.{true, some, ◌≡◌, refl, ok}
use graph_privacy_showcase_d.Common.Text.{codes, text_eq}
use graph_privacy_showcase_d.Fixtures.Write.{to_pretty_json}
use graph_privacy_showcase_d.Session.Audit.{load_bundle}
use graph_privacy_showcase_d.Session.Output.{config, reconcile_to_json, write_json}
use graph_privacy_showcase_d.Session.Program.{
  ReconcileArgs, cmd_reconcile, Command, reconcile_records, success, exit_code, run, main,
}
use graph_privacy_showcase_d.Session.Success.{
  IsReconciled, cmd_reconcile_sound, Established, main_sound,
}
use graph_privacy_showcase_d.Tests.World.{test_system}
use graph_privacy_showcase_d.Tests.Audits.{audit_run}
use graph_privacy_showcase_d.Tests.Commands.{test_net, test_output, domain_args}

abbrev saved_args : ReconcileArgs
saved_args = record {
  bundle = codes "bundle.json";
  manifest = codes "manifest.json";
  records_dir = codes "records";
  rpc_url = some (codes "rpc");
  contract = some (codes "0xc");
  verify_onchain = true;
  domain = domain_args;
  report = codes "report.json";
}

reconciled : cmd_reconcile test_system test_net test_output saved_args 0 ≡ (ok true, 1)
unfolding cmd_reconcile reconcile_to_json to_pretty_json write_json load_bundle config text_eq
reconciled = rw (audit_run.1, audit_run.2) refl

abbrev command : Command
command = reconcile_records saved_args

succeeded : main test_system test_net test_output (codes "0xb") command 0 ≡ (success, 1)
unfolding main run exit_code
succeeded = rw (reconciled) refl

cmd_reconcile_sound_example : IsReconciled test_system test_net test_output saved_args 1
cmd_reconcile_sound_example =
    cmd_reconcile_sound test_system test_net test_output saved_args 0 1 reconciled

main_sound_example : Established test_system test_net test_output (codes "0xb") command 0 1
main_sound_example = main_sound test_system test_net test_output (codes "0xb") command 0 1 succeeded
