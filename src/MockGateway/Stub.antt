-- ===== src/MockGateway/Stub.antt =====
-- `serve_network_subgraph_stub` of mock_gateway.rs: the handler of the stub of the network subgraph. A
-- response is given by the values in its JSON.
use graph_privacy_showcase_d.Common.{ℕ, Option, none, some, List, [], ◌∷◌, if◌then◌else◌, is_some}
use graph_privacy_showcase_d.Common.Text.{Text, codes, text_eq, strip_prefix, to_lowercase}
use graph_privacy_showcase_d.Json.{Json}
use graph_privacy_showcase_d.Attestation.Signer.{ResolvedSigner}

-- The text before and after the first place where a pattern stands.
abbrev prepend : ℕ → Option (Text × Text) → Option (Text × Text)
prepend c none = none
prepend c (some (before, after)) = some (c ∷ before, after)

unfoldable pub split_once : Text → Text → Option (Text × Text)
split_once p [] = elim (strip_prefix p []) [ none ↦ none | some after ↦ some ([], after) ]
split_once p (c ∷ s) = elim (strip_prefix p (c ∷ s)) [
  | none ↦ prepend c (split_once p s)
  | some after ↦ some ([], after)
]

-- `s.split(p).next()`
abbrev pub before_of : Text → Option (Text × Text) → Text
before_of s none = s
before_of s (some (before, after)) = before

abbrev pub before_first : Text → Text → Text
before_first p s = before_of s (split_once p s)

-- `s.split(p).nth(1)`
abbrev pub second_of : Text → Option (Text × Text) → Option Text
second_of p none = none
second_of p (some (before, after)) = some (before_first p after)

abbrev pub second_piece : Text → Text → Option Text
second_piece p s = second_of p (split_once p s)

-- `.split("id:\"").nth(1).and_then(|rest| rest.split('"').next()).unwrap_or("").to_lowercase()`
abbrev pub up_to_quote : Option Text → Text
up_to_quote none = []
up_to_quote (some rest) = before_first (codes "\"") rest

unfoldable pub wanted_id : Text → Text
wanted_id query = to_lowercase (up_to_quote (second_piece (codes "id:\"") query))

abbrev pub stub_stake : Text
stub_stake = codes "100000000000000000000000"

-- An element of `allocations`, by its `id` and its `indexer.id`; the stake is always the same.
pub data StubResponse : Type 0 where
  allocations : List (Text × Text) → StubResponse
  allocation : Option ResolvedSigner → StubResponse

-- `.iter().find(|(allocation, _)| allocation.to_lowercase() == wanted)`
unfoldable pub find_allocation : Text → List (Text × Text) → Option (Text × Text)
find_allocation wanted [] = none
find_allocation wanted ((id, indexer) ∷ rest) =
    if text_eq (to_lowercase id) wanted then some (id, indexer) else find_allocation wanted rest

abbrev pub signer_of : Text → Option (Text × Text) → Option ResolvedSigner
signer_of deployment none = none
signer_of deployment (some (id, indexer)) = some (record {
  allocation = id;
  indexer = indexer;
  staked_tokens = stub_stake;
  allocated_tokens = codes "5000000000000000000000";
  status = codes "Active";
  deployment = deployment;
})

unfoldable pub stub_answer : List (Text × Text) → Text → Text → StubResponse
stub_answer indexers deployment query =
    if is_some (split_once (codes "allocations(") query)
    then allocations indexers
    else allocation (signer_of deployment (find_allocation (wanted_id query) indexers))

module _ (J : Json) where
  -- `.get("query").and_then(as_str).unwrap_or("")` on the parsed body, which is null if it is no JSON.
  abbrev query_of : Option J.Value → Text
  query_of none = []
  query_of (some parsed) = or_empty (text_of (J.get parsed (codes "query")))
    where
      text_of : Option J.Value → Option Text
      text_of none = none
      text_of (some v) = J.as_str v

      or_empty : Option Text → Text
      or_empty none = []
      or_empty (some t) = t

  unfoldable pub handle_stub : List (Text × Text) → Text → Text → StubResponse
  unfolding stub_answer
  handle_stub indexers deployment body =
      stub_answer indexers deployment (query_of (J.from_str body))
