-- ===== src/Session/Exit.antt =====
-- What a success of `cmd_fetch`, `cmd_verify` and `cmd_consistency` establishes (main.rs).
use graph_privacy_showcase_d.Common.{
  ℕ, Bool, true, Option, none, some, ◌≡◌, refl, sym, ap, ◌∙◌, Result, ok, err, context,
  context-eq-ok, ok-injective, not_json, cannot_serialize,
}
use graph_privacy_showcase_d.Common.Effects.{lift, run-eq-ok, lift-eq-ok}
use graph_privacy_showcase_d.Common.Text.{Text}
use graph_privacy_showcase_d.Anchors.{AnchorSet, BlockPinValue, hash, number}
use graph_privacy_showcase_d.Anchors.Query.{meta_query, audit_query}
use graph_privacy_showcase_d.Anchors.Parse.{parse_anchor_set}
use graph_privacy_showcase_d.Attestation.{AuditBundle, DomainConfig, passed}
use graph_privacy_showcase_d.Attestation.Offline.{
  verify_offline, verify_offline_iff, IsBound, recover,
}
use graph_privacy_showcase_d.Attestation.Signer.{ResolvedSigner}
use graph_privacy_showcase_d.Gateway.{
  Net, GatewayClient, new_client, deployment_url, canonical_request_string_no_variables,
}
use graph_privacy_showcase_d.Gateway.Fetch.{fetch}
use graph_privacy_showcase_d.Gateway.Fetched.{fetch-IsAttested}
use graph_privacy_showcase_d.Session.{resolve_signer}
use graph_privacy_showcase_d.Session.Audit.{System, load_bundle}
use graph_privacy_showcase_d.Session.Output.{config, Output, write_json}
use graph_privacy_showcase_d.Session.Commands.{
  FetchArgs, VerifyArgs, block_hash, pin_block, cmd_fetch, verify_signer, cmd_verify,
}

module _ (S : System) (N : Net) (O : Output S N) where
  open S use {json, attestations, field}

  -- The block that was pinned: the one that was asked for, or one that the gateway named by its hash.
  abbrev pub IsPinned : Option ℕ → BlockPinValue → Type 0
  IsPinned (some n) pin = pin ≡ number n
  IsPinned none pin = (h : Text) × (pin ≡ hash h)

  pin_block-IsPinned :
      (client : GatewayClient) (url deployment : Text) (o : Option ℕ) (w v : N.World)
      (pin : BlockPinValue)
      → pin_block S N O client url deployment o w ≡ (ok pin, v)
      → IsPinned o pin
  unfolding pin_block
  pin_block-IsPinned client url deployment (some n) w v pin e =
      sym (ok-injective _ pin (lift-eq-ok _ w v pin e))
  pin_block-IsPinned client url deployment none w v pin e =
      let (meta, u, _, e1) =
        run-eq-ok (fetch N client url meta_query deployment none) _ w v pin e in
      let (value, t, _, e2) =
        run-eq-ok (lift (context not_json (json.from_str meta.response))) _ u v pin e1 in
      let (h, x, _, e3) = run-eq-ok (lift (block_hash S N O value)) _ t v pin e2 in
      (h, sym (ok-injective (hash h) pin (lift-eq-ok _ x v pin e3)))

  -- What `cmd_fetch` saved.
  pub record IsSaved (args : FetchArgs) (v : N.World) : Type 0 where
    pub pin : BlockPinValue
    pub bundle : AuditBundle
    pub set : AnchorSet
    pub printed : Text
    pub before : N.World
    pub pinned : IsPinned args.block_number pin
    pub asked : bundle.request ≡ canonical_request_string_no_variables N (audit_query pin)
    pub of_deployment : bundle.deployment ≡ args.deployment
    pub readable : parse_anchor_set json S.from_value bundle.response ≡ ok set
    pub is_printed : O.bundle_pretty bundle ≡ some printed
    pub is_written : write_json S N O args.out printed before ≡ (ok tt, v)

  -- If `cmd_fetch` succeeds, the last thing it did was to save a bundle whose request asks the audit query at
  -- the block number it was given, or at a block hash if it was given none, whose deployment is
  -- the one it was given, and whose response is accepted as an anchor set.
  pub cmd_fetch_sound :
      (args : FetchArgs) (w v : N.World) (b : Bool)
      → cmd_fetch S N O args w ≡ (ok b, v)
      → IsSaved args v
  unfolding cmd_fetch
  cmd_fetch_sound args w v b e =
      let client = new_client args.gateway args.api_key in
      let url = deployment_url client args.deployment in
      let (pin, w1, e1, k1) =
        run-eq-ok (pin_block S N O client url args.deployment args.block_number) _ w v b e in
      let (bundle, w2, e2, k2) =
        run-eq-ok (fetch N client url (audit_query pin) args.deployment none) _ w1 v b k1 in
      let (set, w3, e3, k3) =
        run-eq-ok (lift (parse_anchor_set json S.from_value bundle.response)) _ w2 v b k2 in
      let (printed, w4, e4, k4) =
        run-eq-ok (lift (context cannot_serialize (O.bundle_pretty bundle))) _ w3 v b k3 in
      let (_, w5, e5, k5) = run-eq-ok (write_json S N O args.out printed) _ w4 v b k4 in
      let (_, _, attested) =
        fetch-IsAttested N client url (audit_query pin) args.deployment none w1 w2 bundle e2 in
      let same : w5 ≡ v = ap (λ p. p.1) k5 in
      record {
        pin = pin;
        bundle = bundle;
        set = set;
        printed = printed;
        before = w4;
        pinned = pin_block-IsPinned client url args.deployment args.block_number w w1 pin e1;
        asked = attested.request_rebuilt;
        of_deployment = attested.for_deployment;
        readable = lift-eq-ok _ w2 w3 set e3;
        is_printed = context-eq-ok _ _ (lift-eq-ok _ w3 w4 printed e4);
        is_written = e5 ∙ ap (λ x. (ok tt, x)) same;
      }

  -- With an endpoint given, the recovered allocation was resolved through it, as the last thing done.
  abbrev pub IsResolvedBy :
      AuditBundle → DomainConfig attestations → Option Text → N.World → N.World → Type 0
  IsResolvedBy bundle domain none w v = Unit
  IsResolvedBy bundle domain (some endpoint) w v =
      (allocation : Text) × (signer : ResolvedSigner) × ((verify_offline attestations bundle
          domain).recovered_allocation
        ≡ some allocation)
      × (resolve_signer N json endpoint allocation bundle.deployment w ≡ (ok signer, v))

  resolved_true :
      (endpoint allocation deployment : Text) (offline : Bool) (r : Result ResolvedSigner)
      (w u v : N.World)
      → resolve_signer N json endpoint allocation deployment w ≡ (r, u)
      → verify_signer S N O (some endpoint) (some allocation) deployment offline w ≡ (ok true, v)
      → (signer : ResolvedSigner) × (resolve_signer N json endpoint allocation deployment w
          ≡ (ok signer, v))
        × (offline ≡ true)
  unfolding verify_signer
  resolved_true endpoint allocation deployment offline (err x) w u v f e = absurd (cc (rw f at e))
  resolved_true endpoint allocation deployment offline (ok signer) w u v f e =
      let done = rw f at e in
      let same : u ≡ v = ap (λ p. p.1) done in
      (signer, f ∙ ap (λ x. (ok signer, x)) same, ok-injective offline true (ap (λ p. p.0) done))

  verify_signer-true :
      (bundle : AuditBundle) (domain : DomainConfig attestations) (endpoint : Option Text)
      (o : Option Text) (w v : N.World)
      → (verify_offline attestations bundle domain).recovered_allocation ≡ o
      → verify_signer S N O endpoint o bundle.deployment
          (passed (verify_offline attestations bundle domain))
          w
        ≡ (ok true, v)
      → (passed (verify_offline attestations bundle domain) ≡ true)
        × ((allocation : Text) → o ≡ some allocation → IsResolvedBy bundle domain endpoint w v)
  unfolding verify_signer
  verify_signer-true bundle domain none o w v e k =
      (ok-injective _ true (lift-eq-ok _ w v true k), λ allocation found. tt)
  verify_signer-true bundle domain (some endpoint) none w v e k =
      (ok-injective _ true (lift-eq-ok _ w v true k), λ allocation found. absurd (cc))
  verify_signer-true bundle domain (some endpoint) (some allocation) w v e k =
      let (r, u) = resolve_signer N json endpoint allocation bundle.deployment w in
      let (signer, resolved, offline) =
        resolved_true endpoint allocation bundle.deployment
          (passed (verify_offline attestations bundle domain)) r w u v refl k in
      (offline, λ _ found. (allocation, signer, e, resolved))

  recovered_of_bound :
      (bundle : AuditBundle) (domain : DomainConfig attestations)
      → IsBound attestations bundle domain
      → (allocation : Text) × ((verify_offline attestations bundle domain).recovered_allocation
          ≡ some allocation)
  unfolding verify_offline recover
  recovered_of_bound bundle domain b =
      (attestations.address_to_string b.allocation, rw (recover, b.signer_recovered) refl)

  -- If `cmd_verify` ends with a success, the bundle was loaded, its attestation binds the request, the
  -- response and the deployment in the domain of the arguments, and, where an endpoint was given,
  -- the allocation recovered from the signature was resolved to a signer through it.
  pub cmd_verify_sound :
      (args : VerifyArgs) (w v : N.World)
      → cmd_verify S N O args w ≡ (ok true, v)
      → (bundle : AuditBundle) × (domain : DomainConfig attestations) × (load_bundle S args.bundle
          ≡ ok bundle)
        × (config S args.domain ≡ ok domain)
        × IsBound attestations bundle domain
        × IsResolvedBy bundle domain args.network_subgraph w v
  unfolding cmd_verify
  cmd_verify_sound args w v e =
      let (bundle, w1, e1, k1) = run-eq-ok (lift (load_bundle S args.bundle)) _ w v true e in
      let (domain, w2, e2, k2) = run-eq-ok (lift (config S args.domain)) _ w1 v true k1 in
      let same : w2 ≡ w = sym (ap (λ p. p.1) e1 ∙ ap (λ p. p.1) e2) in
      let (offline, resolved) =
        verify_signer-true bundle domain args.network_subgraph _ w v refl (rw same at k2) in
      let bound = (verify_offline_iff attestations bundle domain).0 offline in
      let (allocation, found) = recovered_of_bound bundle domain bound in
      (
        bundle,
        domain,
        lift-eq-ok _ w w1 bundle e1,
        lift-eq-ok _ w1 w2 domain e2,
        bound,
        resolved allocation found,
      )
