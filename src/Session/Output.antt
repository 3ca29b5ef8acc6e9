-- ===== src/Session/Output.antt =====
-- What the commands of main.rs write, and the attestation domain of their arguments.
use graph_privacy_showcase_d.Common.{
  ℕ, Option, none, some, List, [], ◌∷◌, ◌++◌, ◌+◌, Result, ok, context, cannot_serialize,
  cannot_write, not_an_address, err, Bool,
}
use graph_privacy_showcase_d.Common.Effects.{Run, ◌>>=◌, lift}
use graph_privacy_showcase_d.Common.Text.{Text, codes, decimal}
use graph_privacy_showcase_d.Attestation.{AuditBundle, DomainConfig}
use graph_privacy_showcase_d.Consistency.{Collected, ConsistencyReport}
use graph_privacy_showcase_d.Gateway.{Net}
use graph_privacy_showcase_d.Fixtures.{Lifecycle}
use graph_privacy_showcase_d.Fixtures.Write.{with_context, Store, to_pretty_json}
use graph_privacy_showcase_d.Reconcile.{ReconcileReport}
use graph_privacy_showcase_d.Records.{DisclosedRecord, RecordsManifest}
use graph_privacy_showcase_d.Session.Audit.{System}

-- The writing side of the file system, which stands in the same world as the network, and what else the
-- commands use of `serde_json` and `std::path`.
pub record Output (S : System) (N : Net) : Type 0 where
  pub parent : Text → Option Text
  pub join : Text → Text → Text
  pub create_dir_all : Text → Run N.World (Unit {0})
  pub write : Text → Text → Run N.World (Unit {0})
  -- `to_string_pretty` of what is written
  pub bundle_pretty : AuditBundle → Option Text
  pub report_pretty : ConsistencyReport → Option Text
  pub reconcile_pretty : ReconcileReport → Option Text
  pub record_pretty : DisclosedRecord → Option Text
  pub manifest_pretty : RecordsManifest → Option Text
  pub lifecycle_pretty : Lifecycle → Option Text
  pub as_u64 : S.json.Value → Option ℕ
  -- `==` on values
  pub value_eq : S.json.Value → S.json.Value → Bool

pub record DomainArgs : Type 0 where
  pub chain_id : ℕ
  pub dispute_manager : Text

module _ (S : System) where
  abbrev pub domain_of :
      DomainArgs → Result S.attestations.Address → Result (DomainConfig S.attestations)
  domain_of args (err e) = err e
  domain_of args (ok address) = ok (record { chain_id = args.chain_id; dispute_manager = address })

  -- `DomainArgs::config`
  unfoldable pub config : DomainArgs → Result (DomainConfig S.attestations)
  config args = domain_of args (context not_an_address (S.parse_address args.dispute_manager))

  module _ (N : Net) (O : Output S N) where
    -- The file system as `write_to` uses it.
    abbrev pub store : Store
    store = record {
      World = N.World;
      create_dir_all = O.create_dir_all;
      write = O.write;
      join = O.join;
      record_pretty = O.record_pretty;
      manifest_pretty = O.manifest_pretty;
      lifecycle_pretty = O.lifecycle_pretty;
    }

    -- `ReconcileReport::to_json`
    unfoldable pub reconcile_to_json : ReconcileReport → Result Text
    reconcile_to_json report = to_pretty_json (O.reconcile_pretty report)

    -- `ConsistencyReport::to_json`
    unfoldable pub consistency_to_json : ConsistencyReport → Result Text
    consistency_to_json report = to_pretty_json (O.report_pretty report)

    abbrev create_parent : Option Text → Run N.World (Unit {0})
    create_parent none = lift (ok tt)
    create_parent (some dir) = O.create_dir_all dir

    unfoldable pub write_json : Text → Text → Run N.World (Unit {0})
    write_json path contents = do
      created ← create_parent (O.parent path)
      with_context (cannot_write path) (O.write path contents)

    -- The loop that writes the divergence bundles, from the `i`-th on.
    unfoldable pub write_bundles : Text → ℕ → List Collected → Run N.World (Unit {0})
    write_bundles bundles_dir i [] = lift (ok tt)
    write_bundles bundles_dir i (c ∷ rest) = do
      printed ← lift (context cannot_serialize (O.bundle_pretty c.bundle))
      let file = codes "signer-" ++ (decimal i ++ (codes "-" ++ (c.allocation ++ codes ".json")))
      written ← write_json (O.join bundles_dir file) printed
      write_bundles bundles_dir (i + 1) rest
