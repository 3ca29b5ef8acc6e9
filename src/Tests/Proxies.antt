-- ===== src/Tests/Proxies.antt =====
-- The gateway of bin/mock-gateway.rs in front of an upstream that gives one answer.
use graph_privacy_showcase_d.Common.{Option, ℕ, ◌+◌, true, some, [], ◌∷◌, ◌≡◌, refl, inr, ok}
use graph_privacy_showcase_d.Common.Text.{
  Text, codes, text_eq, to_lowercase, lower_char, trim, drop_while, drop_while_end, is_whitespace,
}
use graph_privacy_showcase_d.Common.BTreeMap.{get, insert}
use graph_privacy_showcase_d.Gateway.{client_post_body}
use graph_privacy_showcase_d.Gateway.Fetch.{send}
use graph_privacy_showcase_d.MockGateway.{
  Reply, MockGateway, indexer_address, new_gateway, add_indexers, with_indexers, proxying_indexer,
  canonical_request, printed_variables,
}
use graph_privacy_showcase_d.MockGateway.Answer.{
  forward, behaviour_body, attest, reply_with, answer, handle_targeted,
}
use graph_privacy_showcase_d.MockGateway.Program.{Cli, extra_indexers, set_up}
use graph_privacy_showcase_d.MockGateway.Forwards.{Forwards, set_up-Forwards}
use graph_privacy_showcase_d.Tests.World.{test_attestations}
use graph_privacy_showcase_d.Attestation.Domain.{
  default_chain_id, default_dispute_manager, default_domain,
}
use graph_privacy_showcase_d.Tests.Mocks.{body_json, mock_ops, net_of, signed_response}

abbrev parsed : Text → Option Text
parsed t = some t

abbrev cli : Cli
cli = record { upstream = codes "u"; deployment = codes "Qm"; port = 8999; indexers = 2 }

-- The n-th key is the n-th letter.
abbrev key : ℕ → Text
key n = (97 + n) ∷ []

abbrev proxying : MockGateway (net_of signed_response) body_json test_attestations mock_ops
unfolding add_indexers extra_indexers proxying_indexer indexer_address to_lowercase lower_char
    insert
proxying = record {
  domain = record { chain_id = default_chain_id; dispute_manager = default_dispute_manager };
  deployment = codes "Qm";
  default_indexer =
      proxying_indexer (net_of signed_response) body_json test_attestations mock_ops (key 0)
        (codes "u");
  by_indexer = add_indexers (net_of signed_response) body_json test_attestations mock_ops [] (
      extra_indexers (net_of signed_response) body_json test_attestations mock_ops key (codes "u") 1
        2);
  targeted_route_enabled = true;
}

abbrev forwarded : Reply
forwarded = record { status = 200; attestation_header = some (codes "h"); body = codes "lie" }

set_proxying :
    set_up (net_of signed_response) body_json test_attestations mock_ops parsed cli key
    ≡ ok proxying
unfolding set_up default_domain new_gateway with_indexers proxying
set_proxying = refl

-- The first extra indexer, by another spelling of its address.
answered :
    handle_targeted
      (net_of signed_response)
      body_json
      test_attestations
      mock_ops
      proxying
      (codes "Qm")
      (codes "B")
      (client_post_body (net_of signed_response) (codes "q"))
      0
    ≡ (ok forwarded, 1)
unfolding handle_targeted get to_lowercase lower_char add_indexers extra_indexers proxying_indexer
    indexer_address insert answer canonical_request client_post_body text_eq printed_variables trim
    drop_while drop_while_end is_whitespace behaviour_body forward send reply_with attest
answered = refl

set_up-Forwards_example :
    Forwards
      (net_of signed_response)
      body_json
      test_attestations
      mock_ops
      proxying
      (codes "u")
      (client_post_body (net_of signed_response) (codes "q"))
      forwarded
      0
      1
set_up-Forwards_example =
    set_up-Forwards (net_of signed_response) body_json test_attestations mock_ops parsed cli key
      proxying set_proxying (codes "Qm") (codes "B")
      (client_post_body (net_of signed_response) (codes "q")) forwarded 0 1 refl (inr answered)
