-- ===== src/MockGateway/Served.antt =====
-- What the client of gateway.rs gets from the gateway of mock_gateway.rs.
use graph_privacy_showcase_d.Common.{none, some, ◌≡◌, ◌⊎◌, inl, inr, refl, ok}
use graph_privacy_showcase_d.Common.Text.{Text, codes, text_eq, trim, drop_while, drop_while_end}
use graph_privacy_showcase_d.Common.BTreeMap.{text_ord}
use graph_privacy_showcase_d.Json.{Json}
use graph_privacy_showcase_d.Attestation.{Attestation, AttestationOps, eip712}
use graph_privacy_showcase_d.Gateway.{Net, client_post_body, canonical_request_string_no_variables}
use graph_privacy_showcase_d.MockGateway.{
  honest, lying_but_validly_signed, unattested, ServerOps, MockIndexer, MockGateway,
  printed_variables, canonical_request,
}
use graph_privacy_showcase_d.MockGateway.Answer.{plain, behaviour_body, attest, reply_with, answer}

module _ (N : Net) (J : Json) (A : AttestationOps) (X : ServerOps J A) where
  -- `serde_json` on the body that the client posts, and the bytes of a text.
  pub record ServerLaws : Type 0 where
    pub body_parses :
        (q : Text)
        → (v : J.Value) × (s : J.Value) × (J.from_str (client_post_body N q) ≡ some v)
          × (J.get v (codes "query") ≡ some s)
          × (J.as_str s ≡ some q)
          × (J.get v (codes "variables") ≡ none)
    pub from_bytes : (t : Text) → N.from_utf8 (X.into_bytes t) ≡ some t

  module _ (L : ServerLaws) where
    -- The gateway rebuilds the request of every query as the client does.
    pub canonical_request-client_post_body :
        (query : Text)
        → canonical_request N J A X (client_post_body N query)
          ≡ ok (canonical_request_string_no_variables N query)
    unfolding canonical_request canonical_request_string_no_variables printed_variables trim
        drop_while drop_while_end text_eq
    canonical_request-client_post_body query =
        let (v, s, parsed, found, text, none_there) = L.body_parses query in
        rw (parsed, found, text, none_there) refl

    module _ (gateway : MockGateway N J A X) (indexer : MockIndexer N J A X) (query : Text) where
      abbrev pub request : Text
      request = canonical_request_string_no_variables N query

      abbrev pub signed : Text → Attestation
      signed body =
          A.create (eip712 A gateway.domain) indexer.signer gateway.deployment request body

      -- The attestation of a body can be sent in a header, and is read back from it.
      abbrev pub IsCarried : Text → Type 0
      IsCarried body =
          (encoded : Text) × (header : Text) × (X.attestation_to_string (signed body)
            ≡ some encoded)
          × (X.header_value encoded ≡ some header)
          × (N.attestation_from_str header ≡ some (signed body))

      -- An indexer with a fixed body that it attests, be it the true one or not.
      abbrev pub Attests : Text → Type 0
      Attests body =
          (indexer.behaviour ≡ honest body) ⊎ (indexer.behaviour ≡ lying_but_validly_signed body)

      pub answer_attested :
          (body : Text) (u : N.World)
          → Attests body
          → (carried : IsCarried body)
          → answer N J A X gateway indexer (client_post_body N query) u
            ≡ (ok record { status = 200; attestation_header = some carried.1; body = body }, u)
      unfolding answer behaviour_body reply_with attest
      answer_attested body u (inl e) (encoded, header, printed, sent, _) =
          rw (canonical_request-client_post_body query, e, printed, sent) refl
      answer_attested body u (inr e) (encoded, header, printed, sent, _) =
          rw (canonical_request-client_post_body query, e, printed, sent) refl

      pub answer_unattested :
          (body : Text) (u : N.World)
          → indexer.behaviour ≡ unattested body
          → answer N J A X gateway indexer (client_post_body N query) u ≡ (ok (plain 200 body), u)
      unfolding answer behaviour_body reply_with
      answer_unattested body u e = rw (canonical_request-client_post_body query, e) refl
