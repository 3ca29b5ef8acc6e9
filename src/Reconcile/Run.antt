-- ===== src/Reconcile/Run.antt =====
-- `reconcile` of reconcile.rs.
use graph_privacy_showcase_d.Common.{
  ℕ, Bool, true, not, Option, none, some, List, [], ◌++◌, if◌then◌else◌, is_empty, Result, ok,
  ◌>>=◌, map_results,
}
use graph_privacy_showcase_d.Common.Text.{Text}
use graph_privacy_showcase_d.Common.BTreeMap.{BTreeMap}
use graph_privacy_showcase_d.Field.{FieldOps, fr_from_hex}
use graph_privacy_showcase_d.Merkle.{root_history}
use graph_privacy_showcase_d.Anchors.{AnchorSet, CommitmentEntity}
use graph_privacy_showcase_d.Anchors.Ordered.{ordered_commitments, leaf_counts_after_each_call}
use graph_privacy_showcase_d.Records.{RecordsManifest}
use graph_privacy_showcase_d.Attestation.{B256, passed}
use graph_privacy_showcase_d.Reconcile.{
  RootCheck, OnChainCrossCheck, Failure, attestation_failed, ReconcileReport, ReconcileInputs,
  report_schema, ChainReader,
}
use graph_privacy_showcase_d.Reconcile.Scope.{scope_notes}
use graph_privacy_showcase_d.Reconcile.Checks.{
  outcome_of, push_if, served_from, check_records, expected_from, account, check_roots, cross_check,
}

-- The call boundaries that the indexer served, or the manifest's if it served none.
abbrev pub call_counts : List ℕ → List ℕ → List ℕ
call_counts served_counts manifest_counts =
    if is_empty served_counts then manifest_counts else served_counts

module _ (F : FieldOps) (parse_b256 : Text → Option B256) where
  -- The part of `reconcile` under "root replay against the chain".
  unfoldable pub replay_roots :
      AnchorSet
      → RecordsManifest
      → List CommitmentEntity
      → Option ChainReader
      → Result (List RootCheck × List Failure)
  replay_roots set manifest ordered chain = do
    served_leaves ← map_results (λ (c : CommitmentEntity). fr_from_hex F c.value) ordered
    served_counts ← leaf_counts_after_each_call set
    let counts = call_counts served_counts manifest.leaf_counts_after_each_call
    roots ← root_history F served_leaves counts
    check_roots F parse_b256 chain manifest.call_order 0 counts roots

  unfoldable pub optional_cross_check :
      Option ChainReader
      → Bool
      → BTreeMap ℕ Text
      → Result (Option (List OnChainCrossCheck) × List Failure)
  optional_cross_check (some reader) true served = do
    crossed ← cross_check F parse_b256 reader served
    ok (some crossed.0, crossed.1)
  optional_cross_check _ _ served = ok (none, [])

  unfoldable pub reconcile : ReconcileInputs → Option ChainReader → Bool → Result ReconcileReport
  reconcile inputs chain verify_onchain_commitments = do
    let set = inputs.anchor_set
    let manifest = inputs.manifest
    ordered ← ordered_commitments set
    served ← served_from F 0 ordered
    recorded ← check_records F served inputs.records manifest.entries
    expected ← expected_from F served inputs.records manifest.entries []
    let accounted = account served expected manifest.entries
    replayed ← replay_roots set manifest ordered chain
    crossed ← optional_cross_check chain verify_onchain_commitments served
    let failures =
        push_if (not (passed inputs.attestation)) attestation_failed
        ++ (recorded.1 ++ (accounted.1 ++ (replayed.1 ++ crossed.1)))
    ok (record {
      schema = report_schema;
      deployment = inputs.deployment;
      contract = inputs.contract;
      bond_id = manifest.bond_id;
      bond_id_string = manifest.bond_id_string;
      pinned_block_number = set.meta.block.number;
      pinned_block_hash = set.meta.block.hash;
      attestation = inputs.attestation;
      records = recorded.0;
      anchor_accounting = accounted.0;
      root_replay = replayed.0;
      on_chain_cross_check = crossed.0;
      result = outcome_of (is_empty failures);
      failures = failures;
      scope = scope_notes;
    })
