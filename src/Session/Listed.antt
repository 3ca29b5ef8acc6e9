-- ===== src/Session/Listed.antt =====
-- What `fetch_active_indexers` of main.rs returns.
use mathlib.Core.Path.{ap₂}
use graph_privacy_showcase_d.Common.{
  ℕ, true, Option, none, some, List, [], ◌≡◌, ◌↔◌, inl, inr, sym, ap, ◌∙◌, ok, context,
  context-eq-ok, ok-injective, Bool-cases, not_json, unreadable_body,
}
use graph_privacy_showcase_d.Common.Effects.{lift, run-eq-ok, lift-eq-ok}
use graph_privacy_showcase_d.Common.Text.{Text, codes}
use graph_privacy_showcase_d.Consistency.Distinct.{occurs}
use graph_privacy_showcase_d.Gateway.{Net, HttpResponse, client_post_body}
use graph_privacy_showcase_d.Gateway.Fetch.{send}
use graph_privacy_showcase_d.Session.{post_graphql}
use graph_privacy_showcase_d.Session.Audit.{System}
use graph_privacy_showcase_d.Session.Output.{Output}
use graph_privacy_showcase_d.Session.Commands.{
  active_query, array_of, indexers_in, fetch_active_indexers,
}
use graph_privacy_showcase_d.Session.Listing.{
  Any, AreDistinct, Names, active_indexers-distinct, active_indexers_iff,
}

module _ (S : System) (N : Net) where
  open S use {json}

  abbrev items : Option (List json.Value) → List json.Value
  items none = []
  items (some xs) = xs

  abbrev elements : Option json.Value → List json.Value
  elements none = []
  elements (some v) = items (json.as_array v)

  -- The array at a path of a value; where none is, it is taken as empty.
  abbrev pub list_at : json.Value → Text → List json.Value
  list_at value path = elements (json.pointer value path)

  -- The candidates are those that the endpoint's answer names, each once and in lower case.
  pub record IsListing (O : Output S N) (endpoint deployment : Text) (candidates : List Text)
      (w v : N.World) : Type 0 where
    pub response : HttpResponse
    pub bytes : List ℕ
    pub value : json.Value
    pub posted :
        N.post endpoint (client_post_body N (active_query S N O deployment)) none w
        ≡ (some response, v)
    pub succeeded : response.is_success ≡ true
    pub body_read : response.bytes ≡ some bytes
    pub is_json : json.from_str (N.decode bytes) ≡ some value
    pub distinct : AreDistinct candidates
    pub named :
        (id : Text)
        → (occurs id candidates ≡ true)
          ↔ Any (Names S N id) (list_at value (codes "/data/allocations"))

  post_graphql-eq-ok :
      (endpoint query body : Text) (w v : N.World)
      → post_graphql N endpoint query w ≡ (ok body, v)
      → (response : HttpResponse) × (bytes : List ℕ) × (N.post endpoint
            (client_post_body N query)
            none
            w
          ≡ (some response, v))
        × (response.is_success ≡ true)
        × (response.bytes ≡ some bytes)
        × (N.decode bytes ≡ body)
  unfolding post_graphql send
  post_graphql-eq-ok endpoint query body w v e =
      let (response, w1, e1, k1) =
        run-eq-ok (send N endpoint (client_post_body N query) none) _ w v body e in
      let (bytes, w2, e2, k2) =
        run-eq-ok (lift (context unreadable_body response.bytes)) _ w1 v body k1 in
      let there = context-eq-ok _ _ (lift-eq-ok _ w1 w2 bytes e2) in
      let last : w1 ≡ v = ap (λ p. p.1) e2 ∙ ap (λ p. p.1) k2 in
      let answered = context-eq-ok _ _ (ap (λ p. p.0) e1) in
      let result = lift-eq-ok _ w2 v body k2 in
      elim (Bool-cases response.is_success) [
        | inl succeeded ↦ (
          response,
          bytes,
          ap₂ (λ a b. (a, b)) answered (ap (λ p. p.1) e1 ∙ last),
          succeeded,
          there,
          ok-injective _ _ (rw succeeded at result),
        )
        | inr failed ↦ absurd (cc (rw failed at result))
      ]

  -- What the reading of a list of allocations gives.
  abbrev Lists : List Text → List json.Value → Type 0
  Lists candidates allocations =
      AreDistinct candidates
      × ((id : Text) → (occurs id candidates ≡ true) ↔ Any (Names S N id) allocations)

  module _ (O : Output S N) where
    indexers_in-Lists : (o : Option (List json.Value)) → Lists (indexers_in S N O o) (items o)
    indexers_in-Lists none = (tt, λ id. ((λ h. absurd (cc)), (λ h. absurd h)))
    indexers_in-Lists (some allocations) = (
      active_indexers-distinct S N allocations [] tt,
      λ id.
          let both = active_indexers_iff S N id allocations [] in
          (
            (λ h. elim (both.0 h) [ inl old ↦ absurd (cc) | inr named ↦ named ]),
            (λ h. both.1 (inr h)),
          ),
    )

    array_of-Lists :
        (o : Option json.Value) → Lists (indexers_in S N O (array_of S N O o)) (elements o)
    array_of-Lists none = indexers_in-Lists none
    array_of-Lists (some v) = indexers_in-Lists (json.as_array v)

  pub fetch_active_indexers-IsListing :
      (O : Output S N) (endpoint deployment : Text) (candidates : List Text) (w v : N.World)
      → fetch_active_indexers S N O endpoint deployment w ≡ (ok candidates, v)
      → IsListing O endpoint deployment candidates w v
  unfolding fetch_active_indexers
  fetch_active_indexers-IsListing O endpoint deployment candidates w v e =
      let (body, w1, e1, k1) =
        run-eq-ok (post_graphql N endpoint (active_query S N O deployment)) _ w v candidates e in
      let (value, w2, e2, k2) =
        run-eq-ok (lift (context not_json (json.from_str body))) _ w1 v candidates k1 in
      let (response, bytes, posted, succeeded, there, decoded) =
        post_graphql-eq-ok endpoint (active_query S N O deployment) body w w1 e1 in
      let last : w1 ≡ v = ap (λ p. p.1) e2 ∙ ap (λ p. p.1) k2 in
      let same = lift-eq-ok _ w2 v candidates k2 in
      let (distinct, named) = array_of-Lists O (json.pointer value (codes "/data/allocations")) in
      record {
        response = response;
        bytes = bytes;
        value = value;
        posted = posted ∙ ap (λ x. (some response, x)) last;
        succeeded = succeeded;
        body_read = there;
        is_json = ap json.from_str decoded ∙ context-eq-ok _ _ (lift-eq-ok _ w1 w2 value e2);
        distinct = rw (sym (ok-injective _ candidates same)) distinct;
        named = rw (sym (ok-injective _ candidates same)) named;
      }
