-- ===== src/Tests/Fetches.antt =====
-- A network that gives every request one attested response.
use graph_privacy_showcase_d.Common.{ℕ, suc, true, Option, none, some, [], ◌∷◌, ◌++◌, ◌≡◌, refl, ok}
use graph_privacy_showcase_d.Common.Text.{
  Text, codes, text_eq, drop_while, to_lowercase, lower_char,
}
use graph_privacy_showcase_d.Common.BTreeMap.{text_ord, get, insert}
use graph_privacy_showcase_d.Json.{carries_errors}
use graph_privacy_showcase_d.Attestation.{AuditBundle, bundle_schema}
use graph_privacy_showcase_d.Attestation.Offline.{
  check_response, check_request, check_deployment, recover, check_recovery, all_checks,
  verify_offline,
}
use graph_privacy_showcase_d.Attestation.Signer.{
  ResolvedSigner, allocation_query, is_zero_stake, read_allocation, parse_allocation_response,
}
use graph_privacy_showcase_d.Consistency.{
  Collected, targeted_per_indexer, indexer_key, count_keys, distinct_indexers,
}
use graph_privacy_showcase_d.Gateway.{
  HttpResponse, Net, GatewayClient, deployment_url, indexer_url,
  canonical_request_string_no_variables, client_post_body, parse_attestation_header, read_response,
}
use graph_privacy_showcase_d.Gateway.Fetch.{send, fetch}
use graph_privacy_showcase_d.Gateway.Fetched.{IsAttested, fetch-IsAttested}
use graph_privacy_showcase_d.Session.{post_graphql, resolve_signer, collected_as, collect}
use graph_privacy_showcase_d.Session.Sampling.{
  Sample, add_answer, sample_targeted, sample_main_route, fall_back, sample,
}
use graph_privacy_showcase_d.Tests.World.{test_json, test_attestations, test_domain}

abbrev rebuilt : Text
rebuilt = codes "{\"query\":\"q\",\"variables\":{}}"

abbrev response : HttpResponse
response = record {
  is_success = true;
  attestation_header = some (some (codes "h"));
  bytes = some (codes "Qm");
}

-- The world is the number of requests so far.
abbrev test_net : Net
test_net = record {
  World = ℕ;
  post = λ url body key w. (some response, suc w);
  json_string = λ t. codes "\"" ++ (t ++ codes "\"");
  attestation_from_str =
      λ t. some (test_attestations.create 1 (codes "0xa") (codes "Qm") rebuilt (codes "Qm"));
  from_utf8 = λ bytes. some bytes;
  decode = λ bytes. bytes;
}

abbrev client : GatewayClient
client = record { base_url = codes "http"; api_key = none }

abbrev bundle : Text → Option Text → AuditBundle
bundle url routed = record {
  schema = bundle_schema;
  request = rebuilt;
  response = codes "Qm";
  attestation = test_attestations.create 1 (codes "0xa") (codes "Qm") rebuilt (codes "Qm");
  deployment = codes "Qm";
  endpoint = url;
  routed_indexer = routed;
}

abbrev signer : ResolvedSigner
signer = record {
  allocation = codes "Qm";
  indexer = codes "Qm";
  staked_tokens = codes "Qm";
  allocated_tokens = codes "Qm";
  status = codes "Qm";
  deployment = codes "Qm";
}

abbrev answer : Text → Collected
answer indexer = record {
  bundle = bundle (codes "http/api/deployments/id/Qm/indexers/id/" ++ indexer) (some indexer);
  allocation = codes "0xa";
  resolved = some signer;
}

abbrev settings : Sample test_attestations
settings = record {
  client = client;
  deployment = codes "Qm";
  query = codes "q";
  domain = test_domain;
  network_subgraph = codes "network";
  min_signers = 2;
}

runs :
    (fetch test_net client (codes "u") (codes "q") (codes "Qm") none 0
      ≡ (ok (bundle (codes "u") none), 1))
    × (sample test_net test_json test_attestations settings (codes "a" ∷ codes "b" ∷ []) 3 0
        ≡ (ok (answer (codes "a") ∷ answer (codes "b") ∷ [], targeted_per_indexer), 4))
unfolding text_eq drop_while to_lowercase lower_char get insert carries_errors check_response
    check_request check_deployment recover check_recovery all_checks verify_offline allocation_query
    is_zero_stake read_allocation parse_allocation_response indexer_key count_keys distinct_indexers
    deployment_url indexer_url canonical_request_string_no_variables client_post_body
    parse_attestation_header read_response send fetch post_graphql resolve_signer collected_as
    collect add_answer sample_targeted sample_main_route fall_back sample
runs = (refl, refl)

fetch-IsAttested_example :
    (r : HttpResponse) × (test_net.post
        (codes "u")
        (client_post_body test_net (codes "q"))
        client.api_key
        0
      ≡ (some r, 1))
    × IsAttested test_net (codes "u") (codes "q") (codes "Qm") none r (bundle (codes "u") none)
fetch-IsAttested_example =
    fetch-IsAttested test_net client (codes "u") (codes "q") (codes "Qm") none 0 1
      (bundle (codes "u") none) runs.0
