-- ===== src/Gateway.antt =====
-- gateway.rs of items/01-private-bond-replay/src/replay/src, over a network that answers each request in
-- its own way. The record `AuditBundle` stands with the attestation.
pub mod Fetch
pub mod Fetched
use graph_privacy_showcase_d.Common.{
  ℕ, Bool, true, false, not, Option, none, some, List, [], ◌∷◌, ◌++◌, ◌==◌, Result, ok, err, ◌>>=◌,
  ◌>>◌, context, bail_if, http_status, bad_header, no_attestation, not_utf8, unreadable_body,
}
use graph_privacy_showcase_d.Common.Text.{Text, codes, drop_while_end}
use graph_privacy_showcase_d.Attestation.{Attestation, AuditBundle, bundle_schema}

-- A response of `reqwest`: the header is absent, or present and perhaps no text; the body may be cut off.
pub record HttpResponse : Type 0 where
  pub is_success : Bool
  pub attestation_header : Option (Option Text)
  pub bytes : Option (List ℕ)

-- The crates `reqwest` and `serde_json`, and `String::from_utf8`.
pub record Net : Type 1 where
  pub World : Type 0
  -- A POST of a body to a URL, with a key or none, and the world after it.
  pub post : Text → Text → Option Text → World → Option HttpResponse × World
  -- A JSON string literal, with its quotes.
  pub json_string : Text → Text
  pub attestation_from_str : Text → Option Attestation
  pub from_utf8 : List ℕ → Option Text
  -- `Response::text`, which replaces what is not UTF-8
  pub decode : List ℕ → Text

pub record GatewayClient : Type 0 where
  pub base_url : Text
  pub api_key : Option Text

abbrev is_slash : ℕ → Bool
is_slash c = c == b'/'

-- `GatewayClient::new`, whose HTTP client can be built.
unfoldable pub new_client : Text → Option Text → GatewayClient
new_client base_url api_key = record {
  base_url = drop_while_end is_slash base_url;
  api_key = api_key;
}

unfoldable pub deployment_url : GatewayClient → Text → Text
deployment_url client deployment = client.base_url ++ (codes "/api/deployments/id/" ++ deployment)

unfoldable pub indexer_url : GatewayClient → Text → Text → Text
indexer_url client deployment indexer =
    client.base_url
    ++ (codes "/api/deployments/id/" ++ (deployment ++ (codes "/indexers/id/" ++ indexer)))

abbrev pub transpose_header : Option (Option Text) → Result (Option Text)
transpose_header none = ok none
transpose_header (some none) = err bad_header
transpose_header (some (some t)) = ok (some t)

module _ (N : Net) where
  open N use {World, json_string, attestation_from_str, from_utf8}

  unfoldable pub canonical_request_string_no_variables : Text → Text
  canonical_request_string_no_variables query =
      codes "{\"query\":" ++ (json_string query ++ codes ",\"variables\":{}}")

  unfoldable pub client_post_body : Text → Text
  client_post_body query = codes "{\"query\":" ++ (json_string query ++ codes "}")

  unfoldable pub parse_attestation_header : Text → Result Attestation
  parse_attestation_header value = context bad_header (attestation_from_str value)

  -- What `fetch` makes of a response.
  unfoldable pub read_response :
      Text → Text → Text → Option Text → HttpResponse → Result AuditBundle
  read_response url query deployment routed_indexer response = do
    attestation_header ← transpose_header response.attestation_header
    body_bytes ← context unreadable_body response.bytes
    body ← context not_utf8 (from_utf8 body_bytes)
    bail_if (not response.is_success) http_status
    header ← context no_attestation attestation_header
    attestation ← parse_attestation_header header
    ok (record {
      schema = bundle_schema;
      request = canonical_request_string_no_variables query;
      response = body;
      attestation = attestation;
      deployment = deployment;
      endpoint = url;
      routed_indexer = routed_indexer;
    })
