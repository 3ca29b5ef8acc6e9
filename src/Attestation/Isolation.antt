-- ===== src/Attestation/Isolation.antt =====
-- An altered response or request fails its own check and no other (attestation.rs).
use graph_privacy_showcase_d.Common.{
  Bool, true, false, List, [], ◌∷◌, ◌≡◌, ◌≢◌, refl, arith, map, keep_where, sym, ◌∙◌, ap,
  Bool-cases, inl, inr,
}
use graph_privacy_showcase_d.Common.Text.{Text, codes, text_eq, text_eq_iff}
use graph_privacy_showcase_d.Attestation.{
  AttestationOps, AuditBundle, Detail, is_pass, is_fail, CheckResult, OfflineVerification, passed,
  DomainConfig,
}
use graph_privacy_showcase_d.Attestation.Offline.{
  check, check_response, check_request, check_deployment, recover, verify_offline,
  verify_offline_iff, all_pass, response_outcome, request_outcome,
}

-- The steps of the checks that failed.
abbrev pub failed_steps : OfflineVerification → List Text
failed_steps v = map (λ (c : CheckResult). c.step) (keep_where (λ c. is_fail c.outcome) v.checks)

check-step : (step : Text) (b : Bool) (y n : Detail) → (check step b y n).step ≡ step
check-step step true y n = refl
check-step step false y n = refl

only_first :
    (a b c d : CheckResult)
    → is_pass a.outcome ≡ false
    → is_pass b.outcome ≡ true
    → is_pass c.outcome ≡ true
    → is_pass d.outcome ≡ true
    → map (λ (r : CheckResult). r.step) (keep_where (λ r. is_fail r.outcome) (a ∷ b ∷ c ∷ d ∷ []))
      ≡ a.step ∷ []
only_first a b c d p q r s = ground arith

only_second :
    (a b c d : CheckResult)
    → is_pass a.outcome ≡ true
    → is_pass b.outcome ≡ false
    → is_pass c.outcome ≡ true
    → is_pass d.outcome ≡ true
    → map (λ (r : CheckResult). r.step) (keep_where (λ r. is_fail r.outcome) (a ∷ b ∷ c ∷ d ∷ []))
      ≡ b.step ∷ []
only_second a b c d p q r s = ground arith

response_step :
    (A : AttestationOps) (bundle : AuditBundle)
    → (check_response A bundle).step ≡ codes "responseCID"
unfolding check_response
response_step A bundle = check-step _ _ _ _

request_step :
    (A : AttestationOps) (bundle : AuditBundle) → (check_request A bundle).step ≡ codes "requestCID"
unfolding check_request
request_step A bundle = check-step _ _ _ _

text_ne : (s t u : Text) → s ≡ t → u ≢ t → text_eq s u ≡ false
text_ne s t u e ne = elim (Bool-cases (text_eq s u)) [
  | inl same ↦ absurd (ne (sym ((text_eq_iff s u).0 same) ∙ e))
  | inr other ↦ other
]

module _ (A : AttestationOps) (bundle : AuditBundle) (domain : DomainConfig A) where
  -- If a bundle verifies and its response is replaced by one with another hash, the only check that
  -- fails is that of the response, and the same allocation is recovered.
  pub altered_response_isolated :
      (response : Text)
      → passed (verify_offline A bundle domain) ≡ true
      → A.keccak256 response ≢ A.keccak256 bundle.response
      → (failed_steps (verify_offline A (record bundle { response = response }) domain)
          ≡ codes "responseCID" ∷ [])
        × ((verify_offline A (record bundle { response = response }) domain).recovered_allocation
            ≡ (verify_offline A bundle domain).recovered_allocation)
  unfolding verify_offline check_request check_deployment recover
  altered_response_isolated response h ne =
      let altered = record bundle { response = response } in
      let (p, q, d, s) = (all_pass A bundle domain).0 h in
      let bound = (verify_offline_iff A bundle domain).0 h in
      (
        only_first (check_response A altered) _ _ _
              (response_outcome A altered
                ∙ text_ne bundle.attestation.response_cid _ _ bound.response_bound ne)
              q d s
            ∙ ap (λ t. t ∷ []) (response_step A altered),
        refl,
      )

  -- If a bundle verifies and its request is replaced by one with another hash, the one check that fails
  -- is that of the request, and the same allocation is recovered.
  pub altered_request_isolated :
      (request : Text)
      → passed (verify_offline A bundle domain) ≡ true
      → A.keccak256 request ≢ A.keccak256 bundle.request
      → (failed_steps (verify_offline A (record bundle { request = request }) domain)
          ≡ codes "requestCID" ∷ [])
        × ((verify_offline A (record bundle { request = request }) domain).recovered_allocation
            ≡ (verify_offline A bundle domain).recovered_allocation)
  unfolding verify_offline check_response check_deployment recover
  altered_request_isolated request h ne =
      let altered = record bundle { request = request } in
      let (p, q, d, s) = (all_pass A bundle domain).0 h in
      let bound = (verify_offline_iff A bundle domain).0 h in
      (
        only_second _ (check_request A altered) _ _ p
              (request_outcome A altered
                ∙ text_ne bundle.attestation.request_cid _ _ bound.request_bound ne)
              d s
            ∙ ap (λ t. t ∷ []) (request_step A altered),
        refl,
      )
