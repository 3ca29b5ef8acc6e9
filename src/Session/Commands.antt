-- ===== src/Session/Commands.antt =====
-- `cmd_fetch`, `cmd_verify` and `cmd_consistency` of main.rs, less what they print.
use graph_privacy_showcase_d.Common.{
  ℕ, Bool, true, false, ◌&&◌, Option, none, some, List, [], ◌++◌, if◌then◌else◌, is_empty, Result,
  ok, err, context, bail_if, not_json, cannot_serialize, no_block_hash, no_block_number,
  nothing_to_compare,
}
use graph_privacy_showcase_d.Common.Effects.{Run, ◌>>=◌, lift, attempt}
use graph_privacy_showcase_d.Common.Text.{Text, codes}
use graph_privacy_showcase_d.Anchors.{BlockPinValue, hash, number}
use graph_privacy_showcase_d.Anchors.Query.{meta_query, audit_query}
use graph_privacy_showcase_d.Anchors.Parse.{parse_anchor_set}
use graph_privacy_showcase_d.Attestation.{DomainConfig, is_pass, passed}
use graph_privacy_showcase_d.Attestation.Offline.{verify_offline}
use graph_privacy_showcase_d.Attestation.Signer.{ResolvedSigner, text_at}
use graph_privacy_showcase_d.Consistency.{
  AgreementClass, byte_identical, serialization_level_divergence, data_divergence, Collected,
  RouteKind, ConsistencyReport, build_report,
}
use graph_privacy_showcase_d.Gateway.{Net, GatewayClient, new_client, deployment_url}
use graph_privacy_showcase_d.Gateway.Fetch.{fetch}
use graph_privacy_showcase_d.Session.{post_graphql, resolve_signer, active_indexers}
use graph_privacy_showcase_d.Session.Audit.{System, load_bundle}
use graph_privacy_showcase_d.Session.Output.{
  DomainArgs, config, Output, consistency_to_json, write_json, write_bundles,
}
use graph_privacy_showcase_d.Session.Sampling.{Sample, sample}

pub record FetchArgs : Type 0 where
  pub gateway : Text
  pub deployment : Text
  pub api_key : Option Text
  pub block_number : Option ℕ
  pub out : Text

pub record VerifyArgs : Type 0 where
  pub bundle : Text
  pub domain : DomainArgs
  pub network_subgraph : Option Text

pub record ConsistencyArgs : Type 0 where
  pub gateway : Text
  pub deployment : Text
  pub api_key : Option Text
  pub network_subgraph : Text
  pub min_signers : ℕ
  pub max_attempts : ℕ
  pub domain : DomainArgs
  pub report : Text
  pub bundles_dir : Text

abbrev pub is_byte_identical : AgreementClass → Bool
is_byte_identical byte_identical = true
is_byte_identical serialization_level_divergence = false
is_byte_identical data_divergence = false

module _ (S : System) (N : Net) (O : Output S N) where
  open S use {json, attestations, disk, field}

  -- The block hash in an answer to the query for `_meta`.
  unfoldable pub block_hash : json.Value → Result Text
  block_hash value = context no_block_hash (text_at json value (codes "/data/_meta/block/hash"))

  abbrev pub number_of : Option json.Value → Option ℕ
  number_of none = none
  number_of (some v) = O.as_u64 v

  unfoldable pub block_number : json.Value → Result ℕ
  block_number value =
      context no_block_number (number_of (json.pointer value (codes "/data/_meta/block/number")))

  -- The match on `args.block_number`.
  unfoldable pub pin_block : GatewayClient → Text → Text → Option ℕ → Run N.World BlockPinValue
  pin_block client url deployment (some n) = lift (ok (number n))
  pin_block client url deployment none = do
    meta ← fetch N client url meta_query deployment none
    value ← lift (context not_json (json.from_str meta.response))
    h ← lift (block_hash value)
    lift (ok (hash h))

  -- The result is whether the command succeeds.
  unfoldable pub cmd_fetch : FetchArgs → Run N.World Bool
  cmd_fetch args = do
    let client = new_client args.gateway args.api_key
    let url = deployment_url client args.deployment
    pin ← pin_block client url args.deployment args.block_number
    bundle ← fetch N client url (audit_query pin) args.deployment none
    set ← lift (parse_anchor_set json S.from_value bundle.response)
    printed ← lift (context cannot_serialize (O.bundle_pretty bundle))
    written ← write_json S N O args.out printed
    lift (ok true)

  abbrev pub is_resolved : Result ResolvedSigner → Bool
  is_resolved (ok signer) = true
  is_resolved (err e) = false

  -- The part of `cmd_verify` after the offline checks.
  unfoldable pub verify_signer : Option Text → Option Text → Text → Bool → Run N.World Bool
  verify_signer (some endpoint) (some allocation) deployment offline = do
    resolved ← attempt (resolve_signer N json endpoint allocation deployment)
    lift (ok (is_resolved resolved && offline))
  verify_signer (some endpoint) none deployment offline = lift (ok offline)
  verify_signer none allocation deployment offline = lift (ok offline)

  unfoldable pub cmd_verify : VerifyArgs → Run N.World Bool
  cmd_verify args = do
    bundle ← lift (load_bundle S args.bundle)
    domain ← lift (config S args.domain)
    let verification = verify_offline attestations bundle domain
    verify_signer args.network_subgraph verification.recovered_allocation bundle.deployment
        (passed verification)

  abbrev pub array_of : Option json.Value → Option (List json.Value)
  array_of none = none
  array_of (some v) = json.as_array v

  abbrev pub indexers_in : Option (List json.Value) → List Text
  indexers_in none = []
  indexers_in (some allocations) = active_indexers N json allocations []

  unfoldable pub active_query : Text → Text
  active_query deployment =
      codes "{allocations(where:{subgraphDeployment_:{ipfsHash:\""
      ++ (deployment ++ codes "\"},status:Active},first:100){id indexer{id stakedTokens}}}")

  unfoldable pub fetch_active_indexers : Text → Text → Run N.World (List Text)
  fetch_active_indexers endpoint deployment = do
    body ← post_graphql N endpoint (active_query deployment)
    value ← lift (context not_json (json.from_str body))
    lift (ok (indexers_in (array_of (json.pointer value (codes "/data/allocations")))))

  -- What the sampling of a command needs, at the pinned block.
  abbrev pub sample_of : ConsistencyArgs → DomainConfig attestations → Text → Sample attestations
  sample_of args domain h = record {
    client = new_client args.gateway args.api_key;
    deployment = args.deployment;
    query = audit_query (hash h);
    domain = domain;
    network_subgraph = args.network_subgraph;
    min_signers = args.min_signers;
  }

  abbrev pub report_of : ConsistencyArgs → ℕ → Text → List Collected × RouteKind → ConsistencyReport
  report_of args n h (collected, route) =
      build_report field.hex_encode json O.value_eq args.deployment n h route args.min_signers
        collected

  -- The part of `cmd_consistency` after the report is built: the bundles are kept where the answers
  -- are not identical.
  unfoldable pub write_evidence :
      ConsistencyArgs → ConsistencyReport → List Collected → Run N.World Bool
  write_evidence args report collected = do
    kept ←
        (if is_byte_identical report.agreement
          then lift (ok tt)
          else O.create_dir_all args.bundles_dir >>= λ _.
              write_bundles S N O args.bundles_dir 0 collected)
    printed ← lift (consistency_to_json S N O report)
    written ← write_json S N O args.report printed
    lift (ok (is_pass report.result))

  unfoldable pub cmd_consistency : ConsistencyArgs → Run N.World Bool
  cmd_consistency args = do
    let client = new_client args.gateway args.api_key
    meta ← fetch N client (deployment_url client args.deployment) meta_query args.deployment none
    value ← lift (context not_json (json.from_str meta.response))
    h ← lift (block_hash value)
    n ← lift (block_number value)
    domain ← lift (config S args.domain)
    candidates ← fetch_active_indexers args.network_subgraph args.deployment
    sampled ← sample N json attestations (sample_of args domain h) candidates args.max_attempts
    some_answer ← lift (bail_if (is_empty sampled.0) nothing_to_compare)
    write_evidence args (report_of args n h sampled) sampled.0
