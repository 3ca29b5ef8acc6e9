-- ===== src/Gateway/Fetched.antt =====
-- What a fetched bundle is made of, and what is never fetched (gateway.rs).
use graph_privacy_showcase_d.Common.{
  ℕ, true, not, Option, none, some, List, ◌≡◌, sym, ap, ◌∙◌, arith, ok, context, bail_if,
  Option-cases, inl, inr, >>=-eq-ok, ok-injective, context-eq-ok, bail_if-eq-ok, not_utf8,
  unreadable_body, http_status, no_attestation,
}
use graph_privacy_showcase_d.Common.Text.{Text}
use graph_privacy_showcase_d.Attestation.{AuditBundle}
use graph_privacy_showcase_d.Gateway.{
  HttpResponse, Net, GatewayClient, canonical_request_string_no_variables, client_post_body,
  parse_attestation_header, read_response, transpose_header,
}
use graph_privacy_showcase_d.Gateway.Fetch.{send, fetch}
use mathlib.Core.Path.{ap₂}

module _ (N : Net) where
  -- The response that a bundle was read from, and the attestation that it carried.
  pub record IsAttested (url query deployment : Text) (routed : Option Text)
      (response : HttpResponse) (bundle : AuditBundle) : Type 0 where
    pub succeeded : response.is_success ≡ true
    pub header : Text
    pub header_there : response.attestation_header ≡ some (some header)
    pub parsed : N.attestation_from_str header ≡ some bundle.attestation
    pub bytes : List ℕ
    pub body_read : response.bytes ≡ some bytes
    pub body_kept : N.from_utf8 bytes ≡ some bundle.response
    pub request_rebuilt : bundle.request ≡ canonical_request_string_no_variables N query
    pub for_deployment : bundle.deployment ≡ deployment
    pub from_endpoint : bundle.endpoint ≡ url
    pub from_indexer : bundle.routed_indexer ≡ routed

  header-there :
      (h : Option (Option Text)) (o : Option Text) (t : Text)
      → transpose_header h ≡ ok o
      → o ≡ some t
      → h ≡ some (some t)
  header-there none o t e f = cc
  header-there (some none) o t e f = cc
  header-there (some (some u)) o t e f = cc

  read_response-IsAttested :
      (url query deployment : Text) (routed : Option Text) (response : HttpResponse)
      (bundle : AuditBundle)
      → read_response N url query deployment routed response ≡ ok bundle
      → IsAttested url query deployment routed response bundle
  unfolding read_response parse_attestation_header
  read_response-IsAttested url query deployment routed response bundle e =
      let (h, e1, k1) = >>=-eq-ok (transpose_header response.attestation_header) _ e in
      let (bytes, e2, k2) = >>=-eq-ok (context unreadable_body response.bytes) _ k1 in
      let (body, e3, k3) = >>=-eq-ok (context not_utf8 (N.from_utf8 bytes)) _ k2 in
      let (u, e4, k4) = >>=-eq-ok (bail_if (not response.is_success) http_status) _ k3 in
      let (header, e5, k5) = >>=-eq-ok (context no_attestation h) _ k4 in
      let (attestation, e6, k6) = >>=-eq-ok (parse_attestation_header N header) _ k5 in
      let same = ok-injective _ _ k6 in
      record {
        succeeded = ground (arith, bail_if-eq-ok _ _ e4);
        header = header;
        header_there = header-there _ h header e1 (context-eq-ok _ _ e5);
        parsed = context-eq-ok _ _ e6 ∙ ap (λ (b : AuditBundle). some b.attestation) same;
        bytes = bytes;
        body_read = context-eq-ok _ _ e2;
        body_kept = context-eq-ok _ _ e3 ∙ ap (λ (b : AuditBundle). some b.response) same;
        request_rebuilt = sym (ap (λ (b : AuditBundle). b.request) same);
        for_deployment = sym (ap (λ (b : AuditBundle). b.deployment) same);
        from_endpoint = sym (ap (λ (b : AuditBundle). b.endpoint) same);
        from_indexer = sym (ap (λ (b : AuditBundle). b.routed_indexer) same);
      }

  -- A bundle is fetched only from a response of the endpoint that succeeded and carries an attestation in
  -- its header; the bundle holds this attestation, the body as it came, and the request as
  -- the gateway rebuilds it.
  pub fetch-IsAttested :
      (client : GatewayClient) (url query deployment : Text) (routed : Option Text) (w v : N.World)
      (bundle : AuditBundle)
      → fetch N client url query deployment routed w ≡ (ok bundle, v)
      → (response : HttpResponse) × (N.post url (client_post_body N query) client.api_key w
          ≡ (some response, v))
        × IsAttested url query deployment routed response bundle
  unfolding fetch send
  fetch-IsAttested client url query deployment routed w v bundle e =
      elim (Option-cases (N.post url (client_post_body N query) client.api_key w).0) [
        | inl nothing ↦ absurd (ground arith)
        | inr (response, answered) ↦
            let first = ap (λ p. p.0) e in
            let second = ap (λ p. p.1) e in
            (
              response,
              ap₂ (λ a b. (a, b)) answered (rw answered at second),
              read_response-IsAttested url query deployment routed response bundle
                  (rw answered at first),
            )
      ]
