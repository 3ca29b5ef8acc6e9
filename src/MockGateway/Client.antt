-- ===== src/MockGateway/Client.antt =====
-- A client's `fetch` (gateway.rs) from the gateway of mock_gateway.rs, and the verification of what it gets.
use graph_privacy_showcase_d.Common.{
  true, false, Option, none, some, List, [], ◌∷◌, ◌++◌, ◌≡◌, ◌≢◌, ◌⊎◌, inl, inr, refl, sym, ap, ◌∙◌,
  arith, All, ok, err, ok-injective, Bool-cases, http_status, no_attestation,
}
use graph_privacy_showcase_d.Common.Text.{Text, codes, to_lowercase}
use graph_privacy_showcase_d.Common.BTreeMap.{
  BTreeMap, text_ord, get, insert, get-insert, key_eq_iff,
}
use graph_privacy_showcase_d.Json.{Json}
use graph_privacy_showcase_d.Attestation.{
  AttestationOps, AuditBundle, bundle_schema, passed, eip712,
}
use graph_privacy_showcase_d.Attestation.Offline.{verify_offline, verify_offline_iff, recover}
use graph_privacy_showcase_d.Tamper.Resigned.{CreateLaws}
use graph_privacy_showcase_d.Gateway.{
  Net, GatewayClient, client_post_body, parse_attestation_header, read_response,
}
use graph_privacy_showcase_d.Gateway.Fetch.{send, fetch}
use graph_privacy_showcase_d.MockGateway.{
  unattested, Reply, ServerOps, MockIndexer, MockGateway, indexer_address, add_indexers,
  with_indexers,
}
use graph_privacy_showcase_d.MockGateway.Answer.{plain, answer, handle_targeted, as_http}
use graph_privacy_showcase_d.MockGateway.Served.{
  ServerLaws, request, signed, IsCarried, Attests, answer_attested, answer_unattested,
}

module _ (N : Net) (J : Json) (A : AttestationOps) (X : ServerOps J A)
    (L : ServerLaws N J A X) where
  module _ (client : GatewayClient) (url query deployment : Text) (routed : Option Text)
      (w v : N.World) where
    -- The network delivers the reply to the client's request.
    abbrev pub Delivers : Reply → Type 0
    Delivers reply =
        N.post url (client_post_body N query) client.api_key w ≡ (some (as_http N J A X reply), v)

    fetch_read :
        (reply : Reply)
        → Delivers reply
        → fetch N client url query deployment routed w
          ≡ (read_response N url query deployment routed (as_http N J A X reply), v)
    unfolding fetch send
    fetch_read reply d = rw d refl

    module _ (gateway : MockGateway N J A X) (indexer : MockIndexer N J A X) where
      abbrev bundle_of : Text → AuditBundle
      bundle_of body = record {
        schema = bundle_schema;
        request = request N J A X L gateway indexer query;
        response = body;
        attestation = signed N J A X L gateway indexer query body;
        deployment = deployment;
        endpoint = url;
        routed_indexer = routed;
      }

      read_attested :
          (body header : Text)
          → N.attestation_from_str header ≡ some (signed N J A X L gateway indexer query body)
          → read_response N url query deployment routed (
              as_http N J A X
                record { status = 200; attestation_header = some header; body = body })
            ≡ ok (bundle_of body)
      unfolding read_response parse_attestation_header
      read_attested body header read = rw (L.from_bytes body, read) refl

      -- If an indexer has a fixed body that it attests, be it true or false, and the network delivers the
      -- answer, then the client fetches a bundle with this body, and the bundle passes the offline
      -- verification in the gateway's domain and names the indexer's signing address.
      pub fetch_attested_body :
          (K : CreateLaws A) (body : Text) (u t : N.World) (reply : Reply)
          → Attests N J A X L gateway indexer query body
          → IsCarried N J A X L gateway indexer query body
          → A.parse_deployment deployment ≡ some gateway.deployment
          → answer N J A X gateway indexer (client_post_body N query) u ≡ (ok reply, t)
          → Delivers reply
          → (bundle : AuditBundle) × (fetch N client url query deployment routed w ≡ (ok bundle, v))
            × (bundle.response ≡ body)
            × (passed (verify_offline A bundle gateway.domain) ≡ true)
            × (recover A bundle gateway.domain
                ≡ some (A.address_to_string (K.address indexer.signer)))
      unfolding recover
      fetch_attested_body K body u t reply attests carried parsed answered delivered =
          let (encoded, header, _, _, read) = carried in
          let same = ok-injective reply _ (
            ap (λ p. p.0)
              (sym answered
                ∙ answer_attested N J A X L gateway indexer query body u attests carried)) in
          let d = eip712 A gateway.domain in
          let question = request N J A X L gateway indexer query in
          (
            bundle_of body,
            fetch_read reply delivered
                ∙ ap (λ r. (r, v)) (rw same (read_attested body header read)),
            refl,
            (verify_offline_iff A (bundle_of body) gateway.domain).1 record {
              response_bound = K.binds_response d indexer.signer gateway.deployment question body;
              request_bound = K.binds_request d indexer.signer gateway.deployment question body;
              deployment_bound =
                  parsed
                  ∙ ap some
                      (sym (K.binds_deployment d indexer.signer gateway.deployment question body));
              allocation = K.address indexer.signer;
              signer_recovered = K.recovers d indexer.signer gateway.deployment question body;
            },
            rw (recover, K.recovers d indexer.signer gateway.deployment question body) refl,
          )

      -- If an indexer answers without an attestation, and the network delivers the answer, then the
      -- client's fetch fails for the lack of one.
      pub fetch-unattested :
          (body : Text) (u t : N.World) (reply : Reply)
          → indexer.behaviour ≡ unattested body
          → answer N J A X gateway indexer (client_post_body N query) u ≡ (ok reply, t)
          → Delivers reply
          → fetch N client url query deployment routed w ≡ (err no_attestation, v)
      unfolding read_response
      fetch-unattested body u t reply behaves answered delivered =
          let same = ok-injective reply _ (
            ap (λ p. p.0)
              (sym answered ∙ answer_unattested N J A X L gateway indexer query body u behaves)) in
          fetch_read reply delivered ∙ rw (same, L.from_bytes body) refl

    module _ (gateway : MockGateway N J A X) (address : Text) where
      -- The targeted route is off, or no indexer has this address in any spelling.
      abbrev pub HasNoRoute : Type 0
      HasNoRoute =
          (gateway.targeted_route_enabled ≡ false)
          ⊎ (get (to_lowercase address) gateway.by_indexer ≡ none)

      answer_no_route :
          (u : N.World)
          → HasNoRoute
          → (text : Text) × (handle_targeted N J A X gateway deployment address
                (client_post_body N query)
                u
              ≡ (ok (plain 404 text), u))
      unfolding handle_targeted
      answer_no_route u (inl off) = (codes "no route", rw off refl)
      answer_no_route u (inr missing) = elim (Bool-cases gateway.targeted_route_enabled) [
        | inl on ↦ (codes "unknown indexer", rw (on, missing) refl)
        | inr off ↦ (codes "no route", rw off refl)
      ]

      -- If the targeted route is off or knows no indexer of the address, and the network delivers its
      -- answer, then the client's fetch fails for the status of the response.
      pub fetch_no_route :
          (u t : N.World) (reply : Reply)
          → HasNoRoute
          → handle_targeted N J A X gateway deployment address (client_post_body N query) u
            ≡ (ok reply, t)
          → Delivers reply
          → fetch N client url query deployment routed w ≡ (err http_status, v)
      unfolding read_response
      fetch_no_route u t reply no_route answered delivered =
          let (text, refused) = answer_no_route u no_route in
          let same = ok-injective reply _ (ap (λ p. p.0) (sym answered ∙ refused)) in
          fetch_read reply delivered ∙ rw (same, L.from_bytes text) refl

module _ (N : Net) (J : Json) (A : AttestationOps) (X : ServerOps J A) where
  add_indexers-other :
      (k : Text) (m : BTreeMap Text (MockIndexer N J A X)) (ys : List (MockIndexer N J A X))
      → All (λ j. k ≢ indexer_address N J A X j) ys
      → get k (add_indexers N J A X m ys) ≡ get k m
  unfolding add_indexers
  add_indexers-other k m [] h = refl
  add_indexers-other k m (j ∷ ys) (p, h) =
      add_indexers-other k (insert (indexer_address N J A X j) j m) ys h
      ∙ ground (
        arith,
        get-insert (indexer_address N J A X j) k j m,
        key_eq_iff k (indexer_address N J A X j),
      )

  add_indexers-found :
      (i : MockIndexer N J A X) (m : BTreeMap Text (MockIndexer N J A X))
      (xs ys : List (MockIndexer N J A X))
      → All (λ j. indexer_address N J A X i ≢ indexer_address N J A X j) ys
      → get (indexer_address N J A X i) (add_indexers N J A X m (xs ++ i ∷ ys)) ≡ some i
  unfolding add_indexers
  add_indexers-found i m [] ys h =
      let a = indexer_address N J A X i in
      add_indexers-other a (insert a i m) ys h ∙ ground (arith, get-insert a a i m, key_eq_iff a a)
  add_indexers-found i m (x ∷ xs) ys h =
      add_indexers-found i (insert (indexer_address N J A X x) x m) xs ys h

  -- After `with_indexers` the targeted route, where it is on, answers a request for any spelling of an
  -- indexer's address by that indexer, the last of those listed under this address.
  pub handle_targeted-with_indexers :
      (gateway : MockGateway N J A X) (xs ys : List (MockIndexer N J A X)) (i : MockIndexer N J A X)
      (deployment address body : Text) (w : N.World)
      → gateway.targeted_route_enabled ≡ true
      → to_lowercase address ≡ indexer_address N J A X i
      → All (λ j. indexer_address N J A X i ≢ indexer_address N J A X j) ys
      → let served = with_indexers N J A X gateway (xs ++ i ∷ ys) in
        handle_targeted N J A X served deployment address body w ≡ answer N J A X served i body w
  unfolding handle_targeted with_indexers
  handle_targeted-with_indexers gateway xs ys i deployment address body w on same distinct =
      rw (on, same, add_indexers-found i gateway.by_indexer xs ys distinct) refl
