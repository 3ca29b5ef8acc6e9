-- ===== src/MockGateway/Forwards.antt =====
-- What the gateway of bin/mock-gateway.rs answers.
use graph_privacy_showcase_d.Common.{
  some-injective, ℕ, zero, suc, ◌+◌, Bool, true, false, Option, none, some, ◌≡◌, ◌⊎◌, inl, inr,
  refl, sym, ap, ◌∙◌, arith, Result, ok, err, >>=-eq-ok, ok-injective, context, not_a_deployment,
  if◌then◌else◌, Bool-cases,
}
use graph_privacy_showcase_d.Common.Effects.{lift}
use graph_privacy_showcase_d.Common.Text.{Text, codes, to_lowercase}
use graph_privacy_showcase_d.Common.BTreeMap.{BTreeMap, text_ord, is_eq, get, insert, get-insert}
use graph_privacy_showcase_d.Json.{Json}
use graph_privacy_showcase_d.Attestation.{AttestationOps}
use graph_privacy_showcase_d.Attestation.Domain.{default_domain}
use graph_privacy_showcase_d.Gateway.{Net}
use graph_privacy_showcase_d.MockGateway.{
  proxy, Reply, ServerOps, MockIndexer, MockGateway, indexer_address, new_gateway, add_indexers,
  with_indexers, proxying_indexer, canonical_request,
}
use graph_privacy_showcase_d.MockGateway.Answer.{
  plain, attested, forward, behaviour_body, attest, reply_with, answer_body, answer_request,
  answer_found, answer, handle_main, handle_targeted,
}
use graph_privacy_showcase_d.MockGateway.Program.{Cli, extra_indexers, set_up}

module _ (N : Net) (J : Json) (A : AttestationOps) (X : ServerOps J A) where
  -- The reply is what the upstream answered to the body of the request, with the indexer's attestation of
  -- it for the request as the gateway prints it.
  pub record Forwards (gateway : MockGateway N J A X) (upstream request_body : Text) (reply : Reply)
      (w v : N.World) : Type 0 where
    pub indexer : MockIndexer N J A X
    pub request : Text
    pub header : Text
    pub was_asked : canonical_request N J A X request_body ≡ ok request
    pub was_forwarded : forward N upstream request_body w ≡ (ok reply.body, v)
    pub was_attested : attest N J A X gateway indexer request reply.body ≡ ok header
    pub has_header : reply.attestation_header ≡ some header

  refused : (n : ℕ) (text : Text) (reply : Reply) → plain n text ≡ reply → reply.status ≡ n
  refused n text reply e = ap (λ (r : Reply). r.status) (sym e)

  attested-eq-ok :
      (body : Text) (reply : Reply) (r : Result Text)
      → attested body r ≡ ok reply
      → (header : Text) × (r ≡ ok header)
        × (reply.attestation_header ≡ some header)
        × (body ≡ reply.body)
  attested-eq-ok body reply (err x) e = absurd (cc)
  attested-eq-ok body reply (ok header) e =
      let same = ok-injective _ reply e in
      (
        header,
        refl,
        ap (λ (r : Reply). r.attestation_header) (sym same),
        ap (λ (r : Reply). r.body) same,
      )

  module _ (gateway : MockGateway N J A X) (key : A.Signer) (upstream request_body : Text)
      (reply : Reply) (is_ok : reply.status ≡ 200) where
    abbrev indexer : MockIndexer N J A X
    indexer = record { signer = key; behaviour = proxy upstream }

    body-Forwards :
        (request : Text) (r : Result Text) (w v : N.World)
        → canonical_request N J A X request_body ≡ ok request
        → forward N upstream request_body w ≡ (r, v)
        → answer_body N J A X gateway indexer request r ≡ ok reply
        → Forwards gateway upstream request_body reply w v
    unfolding reply_with
    body-Forwards request (err x) w v asked forwarded e =
        let bad : reply.status ≡ 502 =
          refused 502 (X.error_text x) reply (ok-injective _ reply e) in
        absurd (omega arith)
    body-Forwards request (ok body) w v asked forwarded e =
        let (header, made, has, same) =
          attested-eq-ok body reply (attest N J A X gateway indexer request body) e in
        record {
          indexer = indexer;
          request = request;
          header = header;
          was_asked = asked;
          was_forwarded = forwarded ∙ ap (λ b. (ok b, v)) same;
          was_attested = ap (attest N J A X gateway indexer request) (sym same) ∙ made;
          has_header = has;
        }

    request-Forwards :
        (r : Result Text) (w v : N.World)
        → canonical_request N J A X request_body ≡ r
        → answer_request N J A X gateway indexer request_body r w ≡ (ok reply, v)
        → Forwards gateway upstream request_body reply w v
    unfolding behaviour_body
    request-Forwards (err x) w v asked e =
        let bad : reply.status ≡ 400 =
          refused 400 (X.error_text x) reply (ok-injective _ reply (ap (λ p. p.0) e)) in
        absurd (omega arith)
    request-Forwards (ok request) w v asked e =
        let (r, u) = forward N upstream request_body w in
        body-Forwards request r w v asked (ap (λ x. (r, x)) (ap (λ p. p.1) e)) (ap (λ p. p.0) e)

    answer-Forwards :
        (w v : N.World)
        → answer N J A X gateway indexer request_body w ≡ (ok reply, v)
        → Forwards gateway upstream request_body reply w v
    unfolding answer
    answer-Forwards w v e = request-Forwards (canonical_request N J A X request_body) w v refl e

  -- The indexers under which a map has its entries are all proxies of the upstream.
  abbrev AllProxy : Text → BTreeMap Text (MockIndexer N J A X) → Type 0
  AllProxy upstream m =
      (k : Text) (i : MockIndexer N J A X)
      → get k m ≡ some i
      → (key : A.Signer) × (i ≡ record { signer = key; behaviour = proxy upstream })

  insert-AllProxy :
      (upstream k : Text) (key : A.Signer) (m : BTreeMap Text (MockIndexer N J A X))
      → AllProxy upstream m
      → AllProxy upstream (insert k (proxying_indexer N J A X key upstream) m)
  unfolding proxying_indexer
  insert-AllProxy upstream k key m h j i e =
      let new = proxying_indexer N J A X key upstream in
      let looked = sym (get-insert k j new m) ∙ e in
      elim (Bool-cases (is_eq (text_ord.cmp j k))) [
        | inl same ↦ (key, sym (some-injective (rw (same) at looked)))
        | inr other ↦ h j i (rw (other) at looked)
      ]

  add_indexers-AllProxy :
      (upstream : Text) (key : ℕ → A.Signer) (i rounds : ℕ)
      (m : BTreeMap Text (MockIndexer N J A X))
      → AllProxy upstream m
      → AllProxy upstream (add_indexers N J A X m (extra_indexers N J A X key upstream i rounds))
  unfolding add_indexers extra_indexers
  add_indexers-AllProxy upstream key i zero m h = h
  add_indexers-AllProxy upstream key i (suc rounds) m h =
      add_indexers-AllProxy upstream key (i + 1) rounds _ (
        insert-AllProxy upstream
          (indexer_address N J A X (proxying_indexer N J A X (key i) upstream)) (key i) m h)

  module _ (parse_address : Text → Option A.Address) (cli : Cli) (key : ℕ → A.Signer)
      (gateway : MockGateway N J A X)
      (made : set_up N J A X parse_address cli key ≡ ok gateway) where
    set_up-shape :
        (gateway.default_indexer ≡ record { signer = key 0; behaviour = proxy cli.upstream })
        × AllProxy cli.upstream gateway.by_indexer
    unfolding set_up new_gateway with_indexers proxying_indexer get
    set_up-shape =
        let default_indexer = proxying_indexer N J A X (key 0) cli.upstream in
        let (domain, _, k0) = >>=-eq-ok (default_domain A parse_address) _ made in
        let (fresh, e1, k1) =
          >>=-eq-ok (new_gateway N J A X domain cli.deployment default_indexer) _ k0 in
        let (parsed, e2, k2) =
          >>=-eq-ok (context (not_a_deployment cli.deployment) (A.parse_deployment cli.deployment))
            _ e1 in
        let empty =
          sym (ap (λ (g : MockGateway N J A X). g.by_indexer) (ok-injective _ fresh k2)) in
        let first =
          sym (ap (λ (g : MockGateway N J A X). g.default_indexer) (ok-injective _ fresh k2)) in
        let all : AllProxy cli.upstream (
            add_indexers N J A X fresh.by_indexer
              (extra_indexers N J A X key cli.upstream 1 cli.indexers)) =
          add_indexers-AllProxy cli.upstream key 1 cli.indexers fresh.by_indexer
            (rw (empty) (λ k i e. absurd (cc))) in
        rw (sym (ok-injective _ gateway k1)) (first, all)

    found-Forwards :
        (body : Text) (reply : Reply) (o : Option (MockIndexer N J A X)) (w v : N.World)
        → reply.status ≡ 200
        → ((i : MockIndexer N J A X)
            → o ≡ some i
            → (k : A.Signer) × (i ≡ record { signer = k; behaviour = proxy cli.upstream }))
        → answer_found N J A X gateway body o w ≡ (ok reply, v)
        → Forwards gateway cli.upstream body reply w v
    found-Forwards body reply none w v is_ok proxies e =
        let bad : reply.status ≡ 404 =
          refused 404 (codes "unknown indexer") reply (ok-injective _ reply (ap (λ p. p.0) e)) in
        absurd (omega arith)
    found-Forwards body reply (some i) w v is_ok proxies e =
        let (k, same) = proxies i refl in
        answer-Forwards gateway k cli.upstream body reply is_ok w v (rw (same) at e)

    routed-Forwards :
        (on : Bool) (address body : Text) (reply : Reply) (w v : N.World)
        → reply.status ≡ 200
        → (if on
              then answer_found N J A X gateway body (get (to_lowercase address) gateway.by_indexer)
              else lift (ok (plain 404 (codes "no route"))))
            w
          ≡ (ok reply, v)
        → Forwards gateway cli.upstream body reply w v
    routed-Forwards true address body reply w v is_ok e =
        let (_, all) = set_up-shape in
        found-Forwards body reply (get (to_lowercase address) gateway.by_indexer) w v is_ok
          (all (to_lowercase address)) e
    routed-Forwards false address body reply w v is_ok e =
        let bad : reply.status ≡ 404 =
          refused 404 (codes "no route") reply (ok-injective _ reply (ap (λ p. p.0) e)) in
        absurd (omega arith)

    -- On either route, if the gateway that the program sets up answers a request with status 200, then the
    -- body of the reply is the one that the upstream answered to the same request, and it carries the
    -- attestation of an indexer for that body and for the request as the gateway prints it.
    pub set_up-Forwards :
        (deployment address body : Text) (reply : Reply) (w v : N.World)
        → reply.status ≡ 200
        → (handle_main N J A X gateway deployment body w ≡ (ok reply, v))
          ⊎ (handle_targeted N J A X gateway deployment address body w ≡ (ok reply, v))
        → Forwards gateway cli.upstream body reply w v
    unfolding handle_main handle_targeted
    set_up-Forwards deployment address body reply w v is_ok (inl e) =
        let (first, _) = set_up-shape in
        answer-Forwards gateway (key 0) cli.upstream body reply is_ok w v
          (ap (λ i. answer N J A X gateway i body w) (sym first) ∙ e)
    set_up-Forwards deployment address body reply w v is_ok (inr e) =
        routed-Forwards gateway.targeted_route_enabled address body reply w v is_ok e
