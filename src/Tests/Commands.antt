-- ===== src/Tests/Commands.antt =====
-- The commands over a network that gives every request one attested response.
use graph_privacy_showcase_d.Common.{ℕ, suc, true, none, some, ◌++◌, ◌≡◌, refl, ok}
use graph_privacy_showcase_d.Common.Text.{
  Text, codes, text_eq, drop_while, drop_while_end, to_lowercase, lower_char, decimal,
  decimal_digits,
}
use graph_privacy_showcase_d.Common.BTreeMap.{text_ord, get, insert}
use graph_privacy_showcase_d.Json.{carries_errors}
use graph_privacy_showcase_d.Anchors.{hash}
use graph_privacy_showcase_d.Anchors.Query.{as_graphql, meta_query, audit_query}
use graph_privacy_showcase_d.Anchors.Parse.{check_pages, parse_anchor_set}
use graph_privacy_showcase_d.Attestation.Offline.{
  check_response, check_request, check_deployment, recover, check_recovery, all_checks,
  verify_offline,
}
use graph_privacy_showcase_d.Attestation.Signer.{
  allocation_query, is_zero_stake, read_allocation, parse_allocation_response,
}
use graph_privacy_showcase_d.Consistency.{
  indexer_key, count_keys, distinct_indexers, classify, agreement_failures, build_report,
}
use graph_privacy_showcase_d.Gateway.{
  HttpResponse, Net, new_client, deployment_url, indexer_url, canonical_request_string_no_variables,
  client_post_body, parse_attestation_header, read_response,
}
use graph_privacy_showcase_d.Gateway.Fetch.{send, fetch}
use graph_privacy_showcase_d.Session.{
  contains, post_graphql, resolve_signer, collected_as, collect, active_indexers,
}
use graph_privacy_showcase_d.Session.Audit.{load_bundle}
use graph_privacy_showcase_d.Session.Sampling.{
  add_answer, sample_targeted, sample_main_route, fall_back, sample,
}
use graph_privacy_showcase_d.Session.Output.{
  DomainArgs, config, Output, consistency_to_json, write_json, write_bundles,
}
use graph_privacy_showcase_d.Session.Commands.{
  FetchArgs, VerifyArgs, ConsistencyArgs, block_hash, block_number, pin_block, cmd_fetch,
  verify_signer, cmd_verify, active_query, fetch_active_indexers, write_evidence, cmd_consistency,
}
use graph_privacy_showcase_d.Session.Compared.{IsAgreed, cmd_consistency_sound}
use graph_privacy_showcase_d.Fixtures.Write.{to_pretty_json}
use graph_privacy_showcase_d.Tests.World.{test_system, test_attestations}

abbrev pub response : HttpResponse
response = record {
  is_success = true;
  attestation_header = some (some (codes "h"));
  bytes = some (codes "Qm");
}

abbrev pub quoted : Text → Text
quoted t = codes "\"" ++ (t ++ codes "\"")

abbrev pub asked : Text
unfolding audit_query as_graphql decimal decimal_digits
asked =
    codes "{\"query\":" ++ (quoted (audit_query (hash (codes "Qm"))) ++ codes ",\"variables\":{}}")

-- The world is the number of requests so far.
abbrev pub test_net : Net
test_net = record {
  World = ℕ;
  post = λ url body key w. (some response, suc w);
  json_string = quoted;
  attestation_from_str =
      λ t. some (test_attestations.create 1 (codes "0xa") (codes "Qm") asked (codes "Qm"));
  from_utf8 = λ bytes. some bytes;
  decode = λ bytes. bytes;
}

abbrev pub test_output : Output test_system test_net
test_output = record {
  parent = λ path. some (codes "build");
  join = λ dir file. dir ++ (codes "/" ++ file);
  create_dir_all = λ path w. (ok tt, w);
  write = λ path contents w. (ok tt, suc w);
  bundle_pretty = λ bundle. some bundle.response;
  report_pretty = λ report. some report.deployment;
  reconcile_pretty = λ report. some report.schema;
  record_pretty = λ r. some r.commitment;
  manifest_pretty = λ manifest. some manifest.schema;
  lifecycle_pretty = λ lifecycle. some lifecycle.bond_id;
  as_u64 = λ v. some 7;
  value_eq = text_eq;
}

abbrev pub domain_args : DomainArgs
domain_args = record { chain_id = 1; dispute_manager = codes "0xd" }

abbrev fetch_args : FetchArgs
fetch_args = record {
  gateway = codes "http/";
  deployment = codes "Qm";
  api_key = none;
  block_number = none;
  out = codes "bundle.json";
}

abbrev verify_args : VerifyArgs
verify_args = record {
  bundle = codes "bundle.json";
  domain = domain_args;
  network_subgraph = some (codes "network");
}

abbrev consistency_args : ConsistencyArgs
consistency_args = record {
  gateway = codes "http";
  deployment = codes "Qm";
  api_key = none;
  network_subgraph = codes "network";
  min_signers = 1;
  max_attempts = 3;
  domain = domain_args;
  report = codes "report.json";
  bundles_dir = codes "bundles";
}

fetched : cmd_fetch test_system test_net test_output fetch_args 0 ≡ (ok true, 3)
unfolding cmd_fetch pin_block block_hash new_client deployment_url drop_while_end drop_while fetch
    send read_response canonical_request_string_no_variables client_post_body
    parse_attestation_header parse_anchor_set check_pages carries_errors text_eq write_json
fetched = refl

verified : cmd_verify test_system test_net test_output verify_args 0 ≡ (ok true, 1)
unfolding post_graphql send resolve_signer allocation_query to_lowercase lower_char is_zero_stake
    drop_while read_allocation parse_allocation_response carries_errors client_post_body cmd_verify
    load_bundle config verify_signer text_eq check_response check_request check_deployment recover
    check_recovery all_checks verify_offline
verified = refl

compared : cmd_consistency test_system test_net test_output consistency_args 0 ≡ (ok true, 5)
unfolding cmd_consistency block_hash block_number config fetch_active_indexers active_query
    active_indexers contains new_client deployment_url indexer_url drop_while_end drop_while fetch
    send read_response canonical_request_string_no_variables client_post_body
    parse_attestation_header carries_errors text_eq write_json write_bundles write_evidence
    consistency_to_json to_pretty_json post_graphql resolve_signer collected_as collect add_answer
    sample_targeted sample_main_route fall_back sample check_response check_request check_deployment
    recover check_recovery all_checks verify_offline allocation_query is_zero_stake read_allocation
    parse_allocation_response indexer_key count_keys distinct_indexers to_lowercase lower_char get
    insert classify agreement_failures build_report audit_query as_graphql meta_query decimal
    decimal_digits
compared = refl

cmd_consistency_sound_example : IsAgreed test_system test_net test_output consistency_args 0 5
cmd_consistency_sound_example =
    cmd_consistency_sound test_system test_net test_output consistency_args 0 5 compared
