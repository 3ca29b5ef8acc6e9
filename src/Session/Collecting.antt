-- ===== src/Session/Collecting.antt =====
-- A collected answer has passed the checks, and its signer was read from a response (main.rs).
use graph_privacy_showcase_d.Common.{
  true, not, Option, none, some, ◌≡◌, refl, sym, ap, arith, Result, ok, err, context, bail_if,
  bail_if-eq-ok, context-eq-ok, ok-injective, unverified_answer, nothing_recovered,
}
use graph_privacy_showcase_d.Common.Effects.{lift, run-eq-ok, lift-eq-ok, ◌>>=◌}
use graph_privacy_showcase_d.Common.Text.{Text}
use graph_privacy_showcase_d.Json.{Json}
use graph_privacy_showcase_d.Attestation.{AttestationOps, AuditBundle, DomainConfig, passed}
use graph_privacy_showcase_d.Attestation.Offline.{verify_offline}
use graph_privacy_showcase_d.Attestation.Signer.{
  ResolvedSigner, allocation_query, parse_allocation_response,
}
use graph_privacy_showcase_d.Consistency.{Collected}
use graph_privacy_showcase_d.Gateway.{Net}
use graph_privacy_showcase_d.Session.{
  collect, collected_as, resolve_signer, post_graphql, result_ok,
}

module _ (N : Net) (J : Json) (A : AttestationOps) where
  -- What is known of a resolved signer: it was read from a response of the network subgraph.
  abbrev pub ResolvedFrom : Text → Option ResolvedSigner → Type 0
  ResolvedFrom deployment none = Unit
  ResolvedFrom deployment (some signer) =
      (body : Text) × (parse_allocation_response J body deployment ≡ ok signer)

  -- The answer's attestation passes, its allocation is the recovered one, and its signer, if it has
  -- one, was read from a response for the deployment of the bundle.
  abbrev pub IsVerified : DomainConfig A → Collected → Type 0
  IsVerified domain c =
      (passed (verify_offline A c.bundle domain) ≡ true)
      × ((verify_offline A c.bundle domain).recovered_allocation ≡ some c.allocation)
      × ResolvedFrom c.bundle.deployment c.resolved

  resolved_from :
      (endpoint allocation deployment : Text) (w v : N.World) (r : Result ResolvedSigner)
      → resolve_signer N J endpoint allocation deployment w ≡ (r, v)
      → ResolvedFrom deployment (result_ok r)
  unfolding resolve_signer
  resolved_from endpoint allocation deployment w v (err x) e = tt
  resolved_from endpoint allocation deployment w v (ok signer) e =
      let (body, u, _, read) =
        run-eq-ok (post_graphql N endpoint (allocation_query allocation))
          (λ body. lift (parse_allocation_response J body deployment)) w v signer e in
      (body, lift-eq-ok _ u v signer read)

  collected_as-verified :
      (bundle : AuditBundle) (allocation endpoint : Text) (w v : N.World) (c : Collected)
      → collected_as N J A bundle allocation endpoint w ≡ (ok c, v)
      → (c.bundle ≡ bundle)
        × (c.allocation ≡ allocation)
        × ResolvedFrom bundle.deployment c.resolved
  unfolding collected_as
  collected_as-verified bundle allocation endpoint w v c e =
      let answer = resolve_signer N J endpoint allocation bundle.deployment w in
      let made = ok-injective _ _ (ap (λ p. p.0) e) in
      rw (sym made)
        (refl, refl, resolved_from endpoint allocation bundle.deployment w answer.1 answer.0 refl)

  pub collect-IsVerified :
      (bundle : AuditBundle) (domain : DomainConfig A) (endpoint : Text) (w v : N.World)
      (c : Collected)
      → collect N J A bundle domain endpoint w ≡ (ok c, v)
      → IsVerified domain c × (c.bundle ≡ bundle)
  unfolding collect
  collect-IsVerified bundle domain endpoint w v c e =
      let verification = verify_offline A bundle domain in
      let (_, u, checked, e1) =
        run-eq-ok (lift (bail_if (not (passed verification)) unverified_answer))
          (λ _. lift (context nothing_recovered verification.recovered_allocation) >>= λ allocation.
            collected_as N J A bundle allocation endpoint)
          w v c e in
      let (allocation, t, recovered, e2) =
        run-eq-ok (lift (context nothing_recovered verification.recovered_allocation))
          (λ allocation. collected_as N J A bundle allocation endpoint) u v c e1 in
      let (same, owner, signer) = collected_as-verified bundle allocation endpoint t v c e2 in
      rw (same, owner)
        (
          (
            ground (arith, bail_if-eq-ok _ _ (lift-eq-ok _ w u _ checked)),
            context-eq-ok _ _ (lift-eq-ok _ u t allocation recovered),
            signer,
          ),
          refl,
        )
