-- ===== src/Tests/Mocks.antt =====
-- Three networks, each with one mock gateway behind it: one whose indexer lies and signs, one whose
-- indexer does not sign, and one without a targeted route.
use graph_privacy_showcase_d.Common.{
  ℕ, suc, true, false, none, some, [], ◌∷◌, ◌++◌, ◌≡◌, refl, ap, arith, if◌then◌else◌, drop, ok,
  err, inr, no_attestation,
}
use graph_privacy_showcase_d.Common.Text.{
  Text, codes, text_eq, to_lowercase, lower_char, trim, drop_while, drop_while_end, is_whitespace,
}
use graph_privacy_showcase_d.Common.BTreeMap.{text_ord, get}
use graph_privacy_showcase_d.Json.{Json}
use graph_privacy_showcase_d.Attestation.{AuditBundle, passed}
use graph_privacy_showcase_d.Attestation.Offline.{verify_offline, recover}
use graph_privacy_showcase_d.Gateway.{
  HttpResponse, Net, GatewayClient, client_post_body, canonical_request_string_no_variables,
}
use graph_privacy_showcase_d.Gateway.Fetch.{fetch}
use graph_privacy_showcase_d.MockGateway.{
  Behaviour, lying_but_validly_signed, unattested, ServerOps, MockIndexer, MockGateway,
  canonical_request, printed_variables,
}
use graph_privacy_showcase_d.MockGateway.Answer.{
  plain, answer, attest, behaviour_body, reply_with, handle_targeted,
}
use graph_privacy_showcase_d.Attestation.Signer.{allocation_query}
use graph_privacy_showcase_d.MockGateway.Stub.{handle_stub}
use graph_privacy_showcase_d.MockGateway.Resolves.{Answers, handle_stub-allocation_query}
use graph_privacy_showcase_d.MockGateway.Served.{ServerLaws, canonical_request-client_post_body}
use graph_privacy_showcase_d.MockGateway.Client.{fetch_attested_body, fetch-unattested}
use graph_privacy_showcase_d.Tests.World.{test_attestations, test_create, test_domain}

abbrev pub drop_last : Text → Text
drop_last [] = []
drop_last (c ∷ []) = []
drop_last (c ∷ d ∷ s) = c ∷ drop_last (d ∷ s)

drop_last-snoc : (s : Text) (c : ℕ) → drop_last (s ++ c ∷ []) ≡ s
drop_last-snoc [] c = refl
drop_last-snoc (d ∷ []) c = refl
drop_last-snoc (d ∷ e ∷ s) c = ap (λ t. d ∷ t) (drop_last-snoc (e ∷ s) c)

-- A body is its own value, and its query is what stands between its ends.
abbrev pub body_json : Json
body_json = record {
  Value = Text;
  from_str = λ body. some body;
  to_string = λ v. some v;
  get = λ v key. if text_eq key (codes "query") then some v else none;
  pointer = λ v path. none;
  is_null = λ v. false;
  as_array = λ v. none;
  as_str = λ v. some (drop_last (drop 9 v));
}

abbrev pub mock_ops : ServerOps body_json test_attestations
mock_ops = record {
  display = λ v. v;
  signer_address = λ s. s;
  attestation_to_string = λ a. some (codes "h");
  header_value = λ t. some t;
  into_bytes = λ t. t;
  error_text = λ e. [];
}

abbrev pub question : Text
question = codes "{\"query\":q,\"variables\":{}}"

-- A network that gives every request one response, and counts them.
abbrev pub net_of : HttpResponse → Net
net_of response = record {
  World = ℕ;
  post = λ url body key w. (some response, suc w);
  json_string = λ t. t;
  attestation_from_str =
      λ t. some (test_attestations.create 1 (codes "0xa") (codes "Qm") question (codes "lie"));
  from_utf8 = λ bytes. some bytes;
  decode = λ bytes. bytes;
}

mock_laws :
    (response : HttpResponse) → ServerLaws (net_of response) body_json test_attestations mock_ops
unfolding client_post_body text_eq
mock_laws response = record {
  body_parses = λ q. (
    client_post_body (net_of response) q,
    client_post_body (net_of response) q,
    refl,
    refl,
    ap some (drop_last-snoc q b'}'),
    refl,
  );
  from_bytes = λ t. refl;
}

abbrev client : GatewayClient
client = record { base_url = codes "http"; api_key = none }

module _ (response : HttpResponse) where
  abbrev indexer : Behaviour → MockIndexer (net_of response) body_json test_attestations mock_ops
  indexer behaviour = record { signer = codes "0xa"; behaviour = behaviour }

  abbrev gateway : Behaviour → MockGateway (net_of response) body_json test_attestations mock_ops
  gateway behaviour = record {
    domain = test_domain;
    deployment = codes "Qm";
    default_indexer = indexer behaviour;
    by_indexer = [];
    targeted_route_enabled = true;
  }

abbrev pub signed_response : HttpResponse
signed_response = record {
  is_success = true;
  attestation_header = some (some (codes "h"));
  bytes = some (codes "lie");
}

abbrev bare_response : HttpResponse
bare_response = record { is_success = true; attestation_header = none; bytes = some (codes "lie") }

abbrev missing_response : HttpResponse
missing_response = record {
  is_success = false;
  attestation_header = none;
  bytes = some (codes "unknown indexer");
}

abbrev liar : Behaviour
liar = lying_but_validly_signed (codes "lie")

runs :
    (answer
        (net_of signed_response)
        body_json
        test_attestations
        mock_ops
        (gateway signed_response liar)
        (indexer signed_response liar)
        (client_post_body (net_of signed_response) (codes "q"))
        0
      ≡ (ok record { status = 200; attestation_header = some (codes "h"); body = codes "lie" }, 0))
    × (answer
          (net_of bare_response)
          body_json
          test_attestations
          mock_ops
          (gateway bare_response (unattested (codes "lie")))
          (indexer bare_response (unattested (codes "lie")))
          (client_post_body (net_of bare_response) (codes "q"))
          0
        ≡ (ok (plain 200 (codes "lie")), 0))
    × (handle_targeted
          (net_of missing_response)
          body_json
          test_attestations
          mock_ops
          (gateway missing_response liar)
          (codes "Qm")
          (codes "0xB")
          (client_post_body (net_of missing_response) (codes "q"))
          0
        ≡ (ok (plain 404 (codes "unknown indexer")), 0))
unfolding answer canonical_request client_post_body text_eq printed_variables trim drop_while
    drop_while_end is_whitespace behaviour_body reply_with attest handle_targeted get
runs = (refl, refl, refl)

canonical_request-client_post_body_example :
    canonical_request
      (net_of bare_response)
      body_json
      test_attestations
      mock_ops
      (client_post_body (net_of bare_response) (codes "q"))
    ≡ ok (canonical_request_string_no_variables (net_of bare_response) (codes "q"))
canonical_request-client_post_body_example =
    canonical_request-client_post_body (net_of bare_response) body_json test_attestations mock_ops
      (mock_laws bare_response) (codes "q")

fetch_attested_body_example :
    (bundle : AuditBundle) × (fetch
        (net_of signed_response)
        client
        (codes "u")
        (codes "q")
        (codes "Qm")
        none
        0
      ≡ (ok bundle, 1))
    × (bundle.response ≡ codes "lie")
    × (passed (verify_offline test_attestations bundle test_domain) ≡ true)
    × (recover test_attestations bundle test_domain ≡ some (codes "0xa"))
unfolding canonical_request_string_no_variables
fetch_attested_body_example =
    fetch_attested_body (net_of signed_response) body_json test_attestations mock_ops
      (mock_laws signed_response) client (codes "u") (codes "q") (codes "Qm") none 0 1
      (gateway signed_response liar) (indexer signed_response liar) test_create (codes "lie") 0 0
      record { status = 200; attestation_header = some (codes "h"); body = codes "lie" } (inr refl)
      (codes "h", codes "h", refl, refl, refl) refl runs.0 refl

fetch-unattested_example :
    fetch (net_of bare_response) client (codes "u") (codes "q") (codes "Qm") none 0
    ≡ (err no_attestation, 1)
fetch-unattested_example =
    fetch-unattested (net_of bare_response) body_json test_attestations mock_ops
      (mock_laws bare_response) client (codes "u") (codes "q") (codes "Qm") none 0 1
      (gateway bare_response (unattested (codes "lie")))
      (indexer bare_response (unattested (codes "lie"))) (codes "lie") 0 0 (plain 200 (codes "lie"))
      refl runs.1 refl

handle_stub-allocation_query_example :
    Answers ((codes "0xAb", codes "0x1") ∷ []) (codes "Qm") (codes "0xaB") (
      handle_stub body_json
        ((codes "0xAb", codes "0x1") ∷ [])
        (codes "Qm")
        (client_post_body (net_of bare_response) (allocation_query (codes "0xaB"))))
unfolding to_lowercase lower_char
handle_stub-allocation_query_example =
    handle_stub-allocation_query (net_of bare_response) body_json test_attestations mock_ops
      (mock_laws bare_response) ((codes "0xAb", codes "0x1") ∷ []) (codes "Qm") (codes "0xaB")
      (omega arith, omega arith, omega arith)
