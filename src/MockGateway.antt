-- ===== src/MockGateway.antt =====
-- mock_gateway.rs of items/01-private-bond-replay/src/replay/src: the gateway that demos and tests run
-- against. The request handlers stand in `Answer`.
pub mod Answer
pub mod Served
pub mod Client
pub mod Stub
pub mod Resolves
pub mod Program
pub mod Forwards
use graph_privacy_showcase_d.Common.{
  ℕ, Bool, true, false, Option, none, some, List, [], ◌∷◌, Result, Error, ok, err, ◌>>=◌, context,
  if◌then◌else◌, ◌||◌, ◌++◌, body_not_json, no_query, variables_not_json, cannot_serialize,
  not_a_deployment,
}
use graph_privacy_showcase_d.Common.Text.{Text, codes, text_eq, trim, to_lowercase}
use graph_privacy_showcase_d.Common.BTreeMap.{BTreeMap, text_ord, insert, keys}
use graph_privacy_showcase_d.Json.{Json}
use graph_privacy_showcase_d.Attestation.{B256, Attestation, AttestationOps, DomainConfig}
use graph_privacy_showcase_d.Gateway.{Net}

pub data Behaviour : Type 0 where
  honest lying_but_validly_signed unattested proxy : Text → Behaviour

-- What an HTTP handler returns.
pub record Reply : Type 0 where
  pub status : ℕ
  pub attestation_header : Option Text
  pub body : Text

-- What the handlers use of `serde_json`, `axum` and `alloy`, beside the calls of the client.
pub record ServerOps (J : Json) (A : AttestationOps) : Type 0 where
  -- `Value::to_string`
  pub display : J.Value → Text
  -- `PrivateKeySigner::address`
  pub signer_address : A.Signer → A.Address
  pub attestation_to_string : Attestation → Option Text
  -- `HeaderValue::from_str`, which takes visible ASCII
  pub header_value : Text → Option Text
  -- `String::into_bytes`
  pub into_bytes : Text → List ℕ
  -- The text of an error, `format!("{e:#}")`
  pub error_text : Error → Text

module _ (N : Net) (J : Json) (A : AttestationOps) (X : ServerOps J A) where
  pub record MockIndexer : Type 0 where
    pub signer : A.Signer
    pub behaviour : Behaviour

  -- `MockIndexer::honest` and the like; the random key is an argument.
  unfoldable pub honest_indexer : A.Signer → Text → MockIndexer
  honest_indexer key body = record { signer = key; behaviour = honest body }

  unfoldable pub lying_indexer : A.Signer → Text → MockIndexer
  lying_indexer key body = record { signer = key; behaviour = lying_but_validly_signed body }

  unfoldable pub unattested_indexer : A.Signer → Text → MockIndexer
  unattested_indexer key body = record { signer = key; behaviour = unattested body }

  unfoldable pub proxying_indexer : A.Signer → Text → MockIndexer
  proxying_indexer key upstream = record { signer = key; behaviour = proxy upstream }

  -- `MockIndexer::address`
  unfoldable pub indexer_address : MockIndexer → Text
  indexer_address indexer = to_lowercase (A.address_to_string (X.signer_address indexer.signer))

  -- The map of the indexers is a `HashMap`; only its sorted keys and its entries are ever read.
  pub record MockGateway : Type 0 where
    pub domain : DomainConfig A
    pub deployment : B256
    pub default_indexer : MockIndexer
    pub by_indexer : BTreeMap Text MockIndexer
    pub targeted_route_enabled : Bool

  -- `MockGateway::new`
  unfoldable pub new_gateway : DomainConfig A → Text → MockIndexer → Result MockGateway
  new_gateway domain deployment default_indexer = do
    parsed ← context (not_a_deployment deployment) (A.parse_deployment deployment)
    ok record {
      domain = domain;
      deployment = parsed;
      default_indexer = default_indexer;
      by_indexer = [];
      targeted_route_enabled = true;
    }

  unfoldable pub add_indexers :
      BTreeMap Text MockIndexer → List MockIndexer → BTreeMap Text MockIndexer
  add_indexers by_indexer [] = by_indexer
  add_indexers by_indexer (indexer ∷ rest) =
      add_indexers (insert (indexer_address indexer) indexer by_indexer) rest

  unfoldable pub with_indexers : MockGateway → List MockIndexer → MockGateway
  with_indexers gateway indexers = record gateway {
    by_indexer = add_indexers gateway.by_indexer indexers;
  }

  unfoldable pub without_targeted_route : MockGateway → MockGateway
  without_targeted_route gateway = record gateway { targeted_route_enabled = false }

  unfoldable pub indexer_addresses : MockGateway → List Text
  indexer_addresses gateway = keys gateway.by_indexer

  -- `parsed.get(key).and_then(as_str)`
  abbrev text_of : Option J.Value → Option Text
  text_of none = none
  text_of (some v) = J.as_str v

  -- `parsed.get("variables").map(to_string).unwrap_or_default()`
  abbrev variables_json : Option J.Value → Text
  variables_json none = []
  variables_json (some v) = X.display v

  -- The text of the variables as they are printed again.
  abbrev is_no_variables : Text → Bool
  is_no_variables vars = text_eq vars (codes "{}") || text_eq vars (codes "null") || text_eq vars []

  unfoldable pub printed_variables : Text → Result Text
  unfolding text_eq
  printed_variables vars =
      if is_no_variables vars
      then ok (codes "{}")
      else context variables_not_json (J.from_str vars) >>= λ v.
          context cannot_serialize (J.to_string v)

  unfoldable pub canonical_request : Text → Result Text
  canonical_request body = do
    parsed ← context body_not_json (J.from_str body)
    query ← context no_query (text_of (J.get parsed (codes "query")))
    variables ← printed_variables (trim (variables_json (J.get parsed (codes "variables"))))
    ok (
        codes "{\"query\":"
        ++ (N.json_string query ++ (codes ",\"variables\":" ++ (variables ++ codes "}"))))
