-- ===== src/MockGateway/Answer.antt =====
-- `answer` and the two handlers of mock_gateway.rs.
use graph_privacy_showcase_d.Common.{
  ℕ, Bool, true, false, Option, none, some, Result, ok, err, ◌&&◌, leb, ltb, context, if◌then◌else◌,
  cannot_serialize, header_not_ascii, unreadable_body,
}
use graph_privacy_showcase_d.Common.Effects.{Run, ◌>>=◌, lift, attempt}
use graph_privacy_showcase_d.Common.Text.{Text, codes, to_lowercase}
use graph_privacy_showcase_d.Common.BTreeMap.{text_ord, get}
use graph_privacy_showcase_d.Json.{Json}
use graph_privacy_showcase_d.Attestation.{AttestationOps, eip712}
use graph_privacy_showcase_d.Gateway.{Net, HttpResponse}
use graph_privacy_showcase_d.Gateway.Fetch.{send}
use graph_privacy_showcase_d.MockGateway.{
  Behaviour, honest, lying_but_validly_signed, unattested, proxy, Reply, ServerOps, MockIndexer,
  MockGateway, canonical_request,
}

-- A reply with a text and no further header.
abbrev pub plain : ℕ → Text → Reply
plain status body = record { status = status; attestation_header = none; body = body }

abbrev pub is_unattested : Behaviour → Bool
is_unattested (honest b) = false
is_unattested (lying_but_validly_signed b) = false
is_unattested (unattested b) = true
is_unattested (proxy upstream) = false

abbrev pub attested : Text → Result Text → Result Reply
attested body (err e) = err e
attested body (ok header) =
    ok (record { status = 200; attestation_header = some header; body = body })

module _ (N : Net) where
  -- The POST to the upstream, and `text()`, whatever the status is.
  unfoldable pub forward : Text → Text → Run N.World Text
  forward upstream query_body = do
    response ← send N upstream query_body none
    bytes ← lift (context unreadable_body response.bytes)
    lift (ok (N.decode bytes))

  -- `Behaviour::body`
  unfoldable pub behaviour_body : Behaviour → Text → Run N.World Text
  behaviour_body (honest b) query_body = lift (ok b)
  behaviour_body (lying_but_validly_signed b) query_body = lift (ok b)
  behaviour_body (unattested b) query_body = lift (ok b)
  behaviour_body (proxy upstream) query_body = forward upstream query_body

  module _ (J : Json) (A : AttestationOps) (X : ServerOps J A) where
    abbrev pub header_of : Option Text → Result Text
    header_of none = err cannot_serialize
    header_of (some encoded) = context header_not_ascii (X.header_value encoded)

    -- The attestation header for a request and a body.
    unfoldable pub attest : MockGateway N J A X → MockIndexer N J A X → Text → Text → Result Text
    attest gateway indexer request body =
        let attestation =
          A.create (eip712 A gateway.domain) indexer.signer gateway.deployment request body in
        header_of (X.attestation_to_string attestation)

    unfoldable pub reply_with :
        MockGateway N J A X → MockIndexer N J A X → Text → Text → Result Reply
    reply_with gateway indexer request body =
        if is_unattested indexer.behaviour
        then ok (plain 200 body)
        else attested body (attest gateway indexer request body)

    -- The match on the body of the answer.
    abbrev pub answer_body :
        MockGateway N J A X → MockIndexer N J A X → Text → Result Text → Result Reply
    answer_body gateway indexer request (err e) = ok (plain 502 (X.error_text e))
    answer_body gateway indexer request (ok body) = reply_with gateway indexer request body

    -- The match on the canonical request.
    abbrev pub answer_request :
        MockGateway N J A X → MockIndexer N J A X → Text → Result Text → Run N.World Reply
    answer_request gateway indexer request_body (err e) = lift (ok (plain 400 (X.error_text e)))
    answer_request gateway indexer request_body (ok request) =
        attempt (behaviour_body indexer.behaviour request_body) >>= λ body.
        lift (answer_body gateway indexer request body)

    unfoldable pub answer : MockGateway N J A X → MockIndexer N J A X → Text → Run N.World Reply
    answer gateway indexer request_body =
        answer_request gateway indexer request_body (canonical_request N J A X request_body)

    unfoldable pub handle_main : MockGateway N J A X → Text → Text → Run N.World Reply
    handle_main gateway deployment body = answer gateway gateway.default_indexer body

    abbrev pub answer_found :
        MockGateway N J A X → Text → Option (MockIndexer N J A X) → Run N.World Reply
    answer_found gateway body none = lift (ok (plain 404 (codes "unknown indexer")))
    answer_found gateway body (some indexer) = answer gateway indexer body

    unfoldable pub handle_targeted : MockGateway N J A X → Text → Text → Text → Run N.World Reply
    handle_targeted gateway deployment indexer_address body =
        if gateway.targeted_route_enabled
        then answer_found gateway body (get (to_lowercase indexer_address) gateway.by_indexer)
        else lift (ok (plain 404 (codes "no route")))

    -- The reply as `reqwest` shows it to the client.
    abbrev sent_header : Option Text → Option (Option Text)
    sent_header none = none
    sent_header (some header) = some (some header)

    abbrev pub as_http : Reply → HttpResponse
    as_http reply = record {
      is_success = leb 200 reply.status && ltb reply.status 300;
      attestation_header = sent_header reply.attestation_header;
      bytes = some (X.into_bytes reply.body);
    }
