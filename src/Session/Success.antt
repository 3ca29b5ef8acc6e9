-- ===== src/Session/Success.antt =====
-- What a success of the program establishes, by its command (main.rs).
use graph_privacy_showcase_d.Common.{
  Bool, true, false, ◌≡◌, refl, ap, ◌∙◌, Result, ok, err, ok-injective,
}
use graph_privacy_showcase_d.Common.Effects.{lift, run-eq-ok, lift-eq-ok}
use graph_privacy_showcase_d.Common.Text.{Text}
use graph_privacy_showcase_d.Attestation.{AuditBundle, DomainConfig}
use graph_privacy_showcase_d.Attestation.Offline.{IsBound}
use graph_privacy_showcase_d.Fixtures.{GeneratedFixtures}
use graph_privacy_showcase_d.Fixtures.Generate.{generate_with_maturity}
use graph_privacy_showcase_d.Fixtures.Write.{write_to}
use graph_privacy_showcase_d.Gateway.{Net}
use graph_privacy_showcase_d.Reconcile.{ReconcileReport}
use graph_privacy_showcase_d.Session.Audit.{System, load_bundle, audit, report_passed}
use graph_privacy_showcase_d.Session.Output.{config, Output, store, reconcile_to_json, write_json}
use graph_privacy_showcase_d.Session.Seed.{SeedFixturesArgs, cmd_seed_fixtures}
use graph_privacy_showcase_d.Session.Commands.{VerifyArgs, cmd_verify}
use graph_privacy_showcase_d.Session.Outcome.{Audited, audit_sound}
use graph_privacy_showcase_d.Session.Exit.{IsSaved, cmd_fetch_sound, IsResolvedBy, cmd_verify_sound}
use graph_privacy_showcase_d.Session.Compared.{IsAgreed, cmd_consistency_sound}
use graph_privacy_showcase_d.Session.Tampered.{IsCaught, cmd_tamper_sound}
use graph_privacy_showcase_d.Session.Program.{
  ReconcileArgs, reconcile_args, cmd_reconcile, Command, seed_fixtures, fetch_bundle,
  verify_attestation, reconcile_records, tamper_with, compare_answers, success, exit_code, run,
  main,
}

module _ (S : System) (N : Net) (O : Output S N) where
  open S use {field, attestations}

  -- What `cmd_reconcile` found and saved.
  pub record IsReconciled (args : ReconcileArgs) (v : N.World) : Type 0 where
    pub domain : DomainConfig attestations
    pub report : ReconcileReport
    pub printed : Text
    pub before : N.World
    pub in_domain : config S args.domain ≡ ok domain
    pub passes : report_passed report ≡ true
    pub audited : Audited S (reconcile_args S args domain)
    pub is_printed : reconcile_to_json S N O report ≡ ok printed
    pub is_written : write_json S N O args.report printed before ≡ (ok tt, v)

  -- If `cmd_reconcile` ends with a success, then in the domain of its arguments the attestation of the
  -- saved bundle binds its request, response and deployment and has a recoverable signer, its
  -- response is an anchor set that is accepted, the manifest was loaded and every record read from
  -- the file that its entry names, the reconciliation of these holds as `reconcile_pass_sound`
  -- states it, and the last thing done was to write a report that passes.
  pub cmd_reconcile_sound :
      (args : ReconcileArgs) (w v : N.World)
      → cmd_reconcile S N O args w ≡ (ok true, v)
      → IsReconciled args v
  unfolding cmd_reconcile
  cmd_reconcile_sound args w v e =
      let (bundle, w1, e1, k1) = run-eq-ok (lift (load_bundle S args.bundle)) _ w v true e in
      let (domain, w2, e2, k2) = run-eq-ok (lift (config S args.domain)) _ w1 v true k1 in
      let audit_args = reconcile_args S args domain in
      let (report, w3, e3, k3) =
        run-eq-ok (lift (audit S audit_args args.verify_onchain bundle)) _ w2 v true k2 in
      let (printed, w4, e4, k4) =
        run-eq-ok (lift (reconcile_to_json S N O report)) _ w3 v true k3 in
      let (_, w5, e5, k5) = run-eq-ok (write_json S N O args.report printed) _ w4 v true k4 in
      let same : w5 ≡ v = ap (λ p. p.1) k5 in
      let passes = ok-injective _ true (lift-eq-ok _ w5 v true k5) in
      record {
        domain = domain;
        report = report;
        printed = printed;
        before = w4;
        in_domain = lift-eq-ok _ w1 w2 domain e2;
        passes = passes;
        audited =
            audit_sound S audit_args args.verify_onchain bundle report (lift-eq-ok _ w w1 bundle e1)
              (lift-eq-ok _ w2 w3 report e3) passes;
        is_printed = lift-eq-ok _ w3 w4 printed e4;
        is_written = e5 ∙ ap (λ x. (ok tt, x)) same;
      }

  -- The fixtures that were generated and written.
  pub record AreSeeded (args : SeedFixturesArgs) (v : N.World) : Type 0 where
    pub generated : GeneratedFixtures
    pub before : N.World
    pub were_generated :
        generate_with_maturity field attestations.keccak256 args.maturity ≡ ok generated
    pub were_written : write_to (store S N O) args.out_dir generated before ≡ (ok tt, v)

  cmd_seed_fixtures-AreSeeded :
      (args : SeedFixturesArgs) (w v : N.World)
      → cmd_seed_fixtures field attestations.keccak256 (store S N O) args w ≡ (ok true, v)
      → AreSeeded args v
  unfolding cmd_seed_fixtures
  cmd_seed_fixtures-AreSeeded args w v e =
      let (_, w1, e1, k1) = run-eq-ok (O.create_dir_all args.out_dir) _ w v true e in
      let (generated, w2, e2, k2) =
        run-eq-ok (lift (generate_with_maturity field attestations.keccak256 args.maturity)) _ w1 v
          true k1 in
      let (_, w3, e3, k3) =
        run-eq-ok (write_to (store S N O) args.out_dir generated) _ w2 v true k2 in
      record {
        generated = generated;
        before = w2;
        were_generated = lift-eq-ok _ w1 w2 generated e2;
        were_written = e3 ∙ ap (λ p. (ok tt, p.1)) k3;
      }

  -- The bundle that was verified, and how its signer was resolved.
  pub record IsVerified (args : VerifyArgs) (w v : N.World) : Type 0 where
    pub bundle : AuditBundle
    pub domain : DomainConfig attestations
    pub was_saved : load_bundle S args.bundle ≡ ok bundle
    pub in_domain : config S args.domain ≡ ok domain
    pub is_bound : IsBound attestations bundle domain
    pub is_resolved : IsResolvedBy S N O bundle domain args.network_subgraph w v

  cmd_verify-IsVerified :
      (args : VerifyArgs) (w v : N.World)
      → cmd_verify S N O args w ≡ (ok true, v)
      → IsVerified args w v
  cmd_verify-IsVerified args w v e =
      let (bundle, domain, saved, configured, bound, resolved) =
        cmd_verify_sound S N O args w v e in
      record {
        bundle = bundle;
        domain = domain;
        was_saved = saved;
        in_domain = configured;
        is_bound = bound;
        is_resolved = resolved;
      }

  exit_code-success : (r : Result Bool) → exit_code r ≡ success → r ≡ ok true
  unfolding exit_code
  exit_code-success (ok true) e = refl
  exit_code-success (ok false) e = absurd (cc)
  exit_code-success (err x) e = absurd (cc)

  -- What a success means, for each command.
  abbrev pub Established : attestations.Signer → Command → N.World → N.World → Type 0
  Established signer (seed_fixtures args) w v = AreSeeded args v
  Established signer (fetch_bundle args) w v = IsSaved S N O args v
  Established signer (verify_attestation args) w v = IsVerified args w v
  Established signer (reconcile_records args) w v = IsReconciled args v
  Established signer (tamper_with args) w v = IsCaught S args signer × (w ≡ v)
  Established signer (compare_answers args) w v = IsAgreed S N O args w v

  run_sound :
      (signer : attestations.Signer) (command : Command) (w v : N.World)
      → run S N O signer command w ≡ (ok true, v)
      → Established signer command w v
  unfolding run
  run_sound signer (seed_fixtures args) w v e = cmd_seed_fixtures-AreSeeded args w v e
  run_sound signer (fetch_bundle args) w v e = cmd_fetch_sound S N O args w v true e
  run_sound signer (verify_attestation args) w v e = cmd_verify-IsVerified args w v e
  run_sound signer (reconcile_records args) w v e = cmd_reconcile_sound args w v e
  run_sound signer (tamper_with args) w v e =
      (cmd_tamper_sound S args signer (lift-eq-ok _ w v true e), ap (λ p. p.1) e)
  run_sound signer (compare_answers args) w v e = cmd_consistency_sound S N O args w v e

  -- An exit code of success establishes, for each command: seeded fixtures were generated and written; a
  -- fetched bundle asks the audit query, has an accepted anchor set and was saved; a verified bundle
  -- is bound, and its signer resolved where an endpoint is given; the disclosed records were
  -- reconciled with the anchors of a bound bundle and the report was saved; a record was altered and
  -- the audit fails, a byte was altered and the bundle is no longer bound, or the anchors were
  -- altered and signed again, the bundle is bound and a replayed root fails; or verified answers of
  -- signers of enough different indexers, sampled from those that the network subgraph listed, are the same
  -- text, as `cmd_consistency_sound` states it.
  pub main_sound :
      (signer : attestations.Signer) (command : Command) (w v : N.World)
      → main S N O signer command w ≡ (success, v)
      → Established signer command w v
  unfolding main
  main_sound signer command w v e =
      let ran = run S N O signer command w in
      let returned = exit_code-success ran.0 (ap (λ p. p.0) e) in
      let same : ran.1 ≡ v = ap (λ p. p.1) e in
      run_sound signer command w v (ap (λ r. (r, ran.1)) returned ∙ ap (λ u. (ok true, u)) same)
