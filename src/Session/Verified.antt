-- ===== src/Session/Verified.antt =====
-- Every answer that the loops collect has passed the checks, and there are no more than were asked for
-- (main.rs).
use graph_privacy_showcase_d.Common.{
  ℕ, zero, suc, ◌+◌, ◌≤◌, Bool, true, false, Option, none, some, List, [], ◌∷◌, ◌++◌, ◌≡◌, refl,
  sym, ap, arith, All, All-append, length, length-append, Result, ok, err, Bool-cases, inl, inr,
  ok-injective,
}
use graph_privacy_showcase_d.Common.Effects.{lift, attempt, run-eq-ok, lift-eq-ok, ◌>>=◌}
use graph_privacy_showcase_d.Common.Text.{Text, text_eq_iff}
use graph_privacy_showcase_d.Json.{Json}
use graph_privacy_showcase_d.Attestation.{AttestationOps, AuditBundle}
use graph_privacy_showcase_d.Consistency.{
  Collected, RouteKind, targeted_per_indexer, best_effort_main_route,
}
use graph_privacy_showcase_d.Consistency.Distinct.{occurs}
use graph_privacy_showcase_d.Gateway.{
  Net, deployment_url, indexer_url, canonical_request_string_no_variables,
}
use graph_privacy_showcase_d.Gateway.Fetched.{fetch-IsAttested}
use graph_privacy_showcase_d.Gateway.Fetch.{fetch}
use graph_privacy_showcase_d.Session.{collect}
use graph_privacy_showcase_d.Session.Sampling.{
  Sample, has_enough, has_worked, add_answer, sample_targeted, sample_main_route, fall_back, sample,
}
use graph_privacy_showcase_d.Session.Collecting.{IsVerified, collect-IsVerified}

first_occurs : (t : Text) (ts : List Text) → occurs t (t ∷ ts) ≡ true
first_occurs t ts = rw ((text_eq_iff t t).1 refl) refl

later_occurs : (t s : Text) (ts : List Text) → occurs t ts ≡ true → occurs t (s ∷ ts) ≡ true
later_occurs t s ts o = ground arith

module _ (N : Net) (J : Json) (A : AttestationOps) where
  module _ (S : Sample A) (listed : List Text) where
    -- The route to a listed indexer, or the main route.
    abbrev pub IsRoute : Option Text → Text → Type 0
    IsRoute none url = url ≡ deployment_url S.client S.deployment
    IsRoute (some indexer) url =
        (occurs indexer listed ≡ true) × (url ≡ indexer_url S.client S.deployment indexer)

    -- A bundle that answers the sample's query for its deployment, by one of the routes.
    abbrev pub IsAsked : AuditBundle → Type 0
    IsAsked bundle =
        (bundle.request ≡ canonical_request_string_no_variables N S.query)
        × (bundle.deployment ≡ S.deployment)
        × IsRoute bundle.routed_indexer bundle.endpoint

    abbrev pub IsAnswer : Collected → Type 0
    IsAnswer c = IsVerified N J A S.domain c × IsAsked c.bundle

    abbrev Kept : List Collected → Type 0
    Kept collected = All IsAnswer collected

    abbrev WasAsked : Result AuditBundle → Type 0
    WasAsked (err x) = Unit
    WasAsked (ok bundle) = IsAsked bundle

    fetched-WasAsked :
        (url : Text) (routed : Option Text) (answer r : Result AuditBundle) (w u v : N.World)
        → IsRoute routed url
        → fetch N S.client url S.query S.deployment routed w ≡ (r, u)
        → attempt (fetch N S.client url S.query S.deployment routed) w ≡ (ok answer, v)
        → WasAsked answer
    fetched-WasAsked url routed answer (err x) w u v route f e =
        let same = ok-injective (err x) answer (ap (λ p. p.0) (rw f at e)) in rw (sym same) tt
    fetched-WasAsked url routed answer (ok bundle) w u v route f e =
        let same = ok-injective (ok bundle) answer (ap (λ p. p.0) (rw f at e)) in
        let (_, _, a) = fetch-IsAttested N S.client url S.query S.deployment routed w u bundle f in
        rw (sym same)
          (a.request_rebuilt, a.for_deployment, rw (a.from_indexer, a.from_endpoint) route)

    attempted-WasAsked :
        (url : Text) (routed : Option Text) (answer : Result AuditBundle) (w v : N.World)
        → IsRoute routed url
        → attempt (fetch N S.client url S.query S.deployment routed) w ≡ (ok answer, v)
        → WasAsked answer
    attempted-WasAsked url routed answer w v route e =
        let (r, u) = fetch N S.client url S.query S.deployment routed w in
        fetched-WasAsked url routed answer r w u v route refl e

    add_answer-verified :
        (collected next : List Collected) (r : Result AuditBundle) (w v : N.World)
        → WasAsked r
        → add_answer N J A S collected r w ≡ (ok next, v)
        → Kept collected
        → Kept next × (length next ≤ suc (length collected))
    unfolding add_answer
    add_answer-verified collected next (err x) w v asked e h =
        let same = ok-injective collected next (lift-eq-ok (ok collected) w v next e) in
        rw (sym same) (h, omega arith)
    add_answer-verified collected next (ok bundle) w v asked e h =
        let (c, u, made, e1) =
          run-eq-ok (collect N J A bundle S.domain S.network_subgraph)
            (λ c. lift (ok (collected ++ c ∷ []))) w v next e in
        let same = ok-injective (collected ++ c ∷ []) next (lift-eq-ok _ u v next e1) in
        let (verified, own) =
          collect-IsVerified N J A bundle S.domain S.network_subgraph w u c made in
        rw (sym same) (
          All-append IsAnswer collected (c ∷ []) h ((verified, rw own asked), tt),
          omega (arith, length-append collected (c ∷ [])),
        )

    sample_main_route-verified :
        (attempts : ℕ) (collected next : List Collected) (w v : N.World)
        → sample_main_route N J A S attempts collected w ≡ (ok next, v)
        → Kept collected
        → Kept next × (length next ≤ length collected + attempts)
    unfolding sample_main_route
    sample_main_route-verified zero collected next w v e h =
        let same = ok-injective collected next (lift-eq-ok (ok collected) w v next e) in
        rw (sym same) (h, omega arith)
    sample_main_route-verified (suc attempts) collected next w v e h =
        elim (Bool-cases (has_enough S.min_signers collected)) [
          | inl enough ↦
              let same =
                ok-injective collected next (lift-eq-ok (ok collected) w v next (rw enough at e)) in
              rw (sym same) (h, omega arith)
          | inr more ↦
              let (answer, u, sent, e1) =
                run-eq-ok
                  (attempt (
                    fetch N S.client (deployment_url S.client S.deployment) S.query S.deployment
                      none))
                  (λ answer. add_answer N J A S collected answer >>= λ next.
                    sample_main_route N J A S attempts next)
                  w v next (rw more at e) in
              let (later, t, added, e2) =
                run-eq-ok (add_answer N J A S collected answer)
                  (λ next. sample_main_route N J A S attempts next) u v next e1 in
              let (kept, size) =
                add_answer-verified collected later answer u t
                  (attempted-WasAsked (deployment_url S.client S.deployment) none answer w u refl
                    sent)
                  added h in
              let (all, total) = sample_main_route-verified attempts later next t v e2 kept in
              (all, omega arith)
        ]

    sample_targeted-verified :
        (candidates : List Text) (collected : List Collected) (worked : Bool)
        (next : List Collected × Bool) (w v : N.World)
        → ((i : Text) → occurs i candidates ≡ true → occurs i listed ≡ true)
        → sample_targeted N J A S candidates collected worked w ≡ (ok next, v)
        → Kept collected
        → Kept next.0 × (length next.0 ≤ length collected + length candidates)
    unfolding sample_targeted
    sample_targeted-verified [] collected worked next w v among e h =
        let same =
          ok-injective (collected, worked) next (lift-eq-ok (ok (collected, worked)) w v next e) in
        rw (sym same) (h, omega arith)
    sample_targeted-verified (indexer ∷ candidates) collected worked next w v among e h =
        elim (Bool-cases (has_enough S.min_signers collected)) [
          | inl enough ↦
              let same =
                ok-injective (collected, worked) next
                  (lift-eq-ok (ok (collected, worked)) w v next (rw enough at e)) in
              rw (sym same) (h, omega arith)
          | inr more ↦
              let (answer, u, sent, e1) =
                run-eq-ok
                  (attempt (
                    fetch N S.client (indexer_url S.client S.deployment indexer) S.query
                      S.deployment (some indexer)))
                  (λ answer. add_answer N J A S collected answer >>= λ next.
                    sample_targeted N J A S candidates next (has_worked worked answer))
                  w v next (rw more at e) in
              let (later, t, added, e2) =
                run-eq-ok (add_answer N J A S collected answer)
                  (λ next. sample_targeted N J A S candidates next (has_worked worked answer)) u v
                  next e1 in
              let (kept, size) =
                add_answer-verified collected later answer u t
                  (attempted-WasAsked (indexer_url S.client S.deployment indexer) (some indexer)
                    answer w u (among indexer (first_occurs indexer candidates), refl) sent)
                  added h in
              let (all, total) =
                sample_targeted-verified candidates later (has_worked worked answer) next t v
                  (λ i o. among i (later_occurs i indexer candidates o)) e2 kept in
              (all, omega arith)
        ]

    fall_back-verified :
        (attempts : ℕ) (targeted : List Collected × Bool) (next : List Collected × RouteKind)
        (w v : N.World)
        → fall_back N J A S attempts targeted w ≡ (ok next, v)
        → Kept targeted.0
        → Kept next.0 × (length next.0 ≤ length targeted.0 + attempts)
    unfolding fall_back
    fall_back-verified attempts (collected, true) next w v e h =
        let same =
          ok-injective (collected, targeted_per_indexer) next
            (lift-eq-ok (ok (collected, targeted_per_indexer)) w v next e) in
        rw (sym same) (h, omega arith)
    fall_back-verified attempts (collected, false) next w v e h =
        let (sampled, u, ran, e1) =
          run-eq-ok (sample_main_route N J A S attempts collected)
            (λ sampled. lift (ok (sampled, best_effort_main_route))) w v next e in
        let same =
          ok-injective _ next (lift-eq-ok (ok (sampled, best_effort_main_route)) u v next e1) in
        rw (sym same) (sample_main_route-verified attempts collected sampled w u ran h)

  -- When the sampling returns, every answer it collected answers the sample's query for its deployment,
  -- by the route to a candidate or by the main route, and passes the offline checks under the
  -- recovered allocation, every signer it resolved was read from a response for the bundle's
  -- deployment, and there are at most as many answers as candidates and attempts.
  pub sample-IsVerified :
      (S : Sample A) (candidates : List Text) (attempts : ℕ) (next : List Collected × RouteKind)
      (w v : N.World)
      → sample N J A S candidates attempts w ≡ (ok next, v)
      → All (IsAnswer S candidates) next.0 × (length next.0 ≤ length candidates + attempts)
  unfolding sample
  sample-IsVerified S candidates attempts next w v e =
      let (targeted, u, first, e1) =
        run-eq-ok (sample_targeted N J A S candidates [] false)
          (λ targeted. fall_back N J A S attempts targeted) w v next e in
      let (kept, size) =
        sample_targeted-verified S candidates candidates [] false targeted w u (λ i o. o) first
          tt in
      let (all, total) = fall_back-verified S candidates attempts targeted next u v e1 kept in
      (all, omega arith)
