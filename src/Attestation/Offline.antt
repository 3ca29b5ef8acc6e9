-- ===== src/Attestation/Offline.antt =====
-- `verify_offline` and `verify_against_signer` of attestation.rs.
use graph_privacy_showcase_d.Common.{
  Bool, true, false, Option, none, some, List, [], ◌∷◌, ◌≡◌, ◌↔◌, refl, arith, all, if◌then◌else◌,
  Result, bail_if, not, signer_mismatch, sym, ap, ◌∙◌, Option-cases, inl, inr,
}
use graph_privacy_showcase_d.Common.Text.{Text, codes, text_eq, text_eq_iff, text_eq_sound}
use graph_privacy_showcase_d.Attestation.Means.{means_of_passing}
use graph_privacy_showcase_d.Attestation.{
  B256, AttestationOps, AuditBundle, pass, fail, is_pass, Detail, hashes_to, binds_other,
  deployment_is, deployment_differs, not_a_deployment_id, recovered, not_recovered, CheckResult,
  OfflineVerification, passed, DomainConfig, eip712,
}

abbrev pub check : Text → Bool → Detail → Detail → CheckResult
check step true yes_detail no_detail = record { step = step; outcome = pass; detail = yes_detail }
check step false yes_detail no_detail = record { step = step; outcome = fail; detail = no_detail }

check-outcome : (step : Text) (b : Bool) (y n : Detail) → is_pass (check step b y n).outcome ≡ b
check-outcome step true y n = refl
check-outcome step false y n = refl

module _ (A : AttestationOps) where
  open A use {keccak256, parse_deployment, recover_allocation, address_to_string}

  unfoldable pub check_response : AuditBundle → CheckResult
  check_response bundle =
      let cid = keccak256 bundle.response in
      check (codes "responseCID") (text_eq bundle.attestation.response_cid cid) (hashes_to cid)
        (binds_other bundle.attestation.response_cid cid)

  unfoldable pub check_request : AuditBundle → CheckResult
  check_request bundle =
      let cid = keccak256 bundle.request in
      check (codes "requestCID") (text_eq bundle.attestation.request_cid cid) (hashes_to cid)
        (binds_other bundle.attestation.request_cid cid)

  unfoldable pub check_deployment : AuditBundle → CheckResult
  check_deployment bundle = elim (parse_deployment bundle.deployment) [
    | none ↦ record {
      step = codes "subgraphDeploymentID";
      outcome = fail;
      detail = not_a_deployment_id bundle.deployment;
    }
    | some expected ↦
        check (codes "subgraphDeploymentID") (text_eq bundle.attestation.deployment expected)
          (deployment_is bundle.deployment expected) (deployment_differs bundle.deployment expected)
  ]

  unfoldable pub recover : AuditBundle → DomainConfig A → Option Text
  recover bundle domain = elim (recover_allocation (eip712 A domain) bundle.attestation) [
    | none ↦ none
    | some allocation ↦ some (address_to_string allocation)
  ]

  unfoldable pub check_recovery : Option Text → CheckResult
  check_recovery none = record {
    step = codes "eip712Recovery";
    outcome = fail;
    detail = not_recovered;
  }
  check_recovery (some allocation) = record {
    step = codes "eip712Recovery";
    outcome = pass;
    detail = recovered allocation;
  }

  unfoldable pub all_checks : AuditBundle → DomainConfig A → List CheckResult
  all_checks bundle domain =
      check_response bundle
      ∷ check_request bundle
      ∷ check_deployment bundle
      ∷ check_recovery (recover bundle domain)
      ∷ []

  -- Every check is run; the result is a pass if all pass.
  unfoldable pub verify_offline : AuditBundle → DomainConfig A → OfflineVerification
  unfolding all_checks
  verify_offline bundle domain = record {
    checks = all_checks bundle domain;
    recovered_allocation = recover bundle domain;
    result = if all (λ c. is_pass c.outcome) (all_checks bundle domain) then pass else fail;
    means = means_of_passing;
  }

  unfoldable pub verify_against_signer :
      AuditBundle → DomainConfig A → A.Address → Result (Unit {0})
  verify_against_signer bundle domain expected_signer =
      bail_if
        (not (
          A.verify (eip712 A domain) bundle.attestation expected_signer bundle.request
            bundle.response))
        signer_mismatch

  -- The four bindings of an attestation.
  pub record IsBound (bundle : AuditBundle) (domain : DomainConfig A) : Type 0 where
    pub response_bound : bundle.attestation.response_cid ≡ keccak256 bundle.response
    pub request_bound : bundle.attestation.request_cid ≡ keccak256 bundle.request
    pub deployment_bound : parse_deployment bundle.deployment ≡ some bundle.attestation.deployment
    pub allocation : A.Address
    pub signer_recovered : recover_allocation (eip712 A domain) bundle.attestation ≡ some allocation

  module _ (bundle : AuditBundle) where
    pub response_outcome :
        is_pass (check_response bundle).outcome
        ≡ text_eq bundle.attestation.response_cid (keccak256 bundle.response)
    unfolding check_response
    response_outcome = check-outcome _ _ _ _

    pub request_outcome :
        is_pass (check_request bundle).outcome
        ≡ text_eq bundle.attestation.request_cid (keccak256 bundle.request)
    unfolding check_request
    request_outcome = check-outcome _ _ _ _

    pub deployment_iff :
        (is_pass (check_deployment bundle).outcome ≡ true)
        ↔ (parse_deployment bundle.deployment ≡ some bundle.attestation.deployment)
    unfolding check_deployment
    deployment_iff = by_parse (parse_deployment bundle.deployment) refl
      where
        by_parse :
            (o : Option B256)
            → parse_deployment bundle.deployment ≡ o
            → (is_pass (check_deployment bundle).outcome ≡ true)
              ↔ (parse_deployment bundle.deployment ≡ some bundle.attestation.deployment)
        by_parse none e = ((λ h. absurd (ground arith)), (λ h. absurd (cc)))
        by_parse (some expected) e = (
          (λ h.
              e
              ∙ ap some (
                  sym (
                    text_eq_sound bundle.attestation.deployment expected
                      (sym (check-outcome _ _ _ _) ∙ (rw (e, check_deployment) at h))))),
          (λ h.
              rw (e, check_deployment)
                (check-outcome _ _ _ _
                  ∙ (text_eq_iff bundle.attestation.deployment expected).1 (cc))),
        )

  module _ (bundle : AuditBundle) (domain : DomainConfig A) where
    recovery_of_some :
        (allocation : A.Address)
        → recover_allocation (eip712 A domain) bundle.attestation ≡ some allocation
        → is_pass (check_recovery (recover bundle domain)).outcome ≡ true
    unfolding check_recovery recover
    recovery_of_some allocation e = ground arith

    recovery_inv :
        is_pass (check_recovery (recover bundle domain)).outcome ≡ true
        → (allocation : A.Address) × (recover_allocation (eip712 A domain) bundle.attestation
            ≡ some allocation)
    unfolding check_recovery recover
    recovery_inv h = elim (Option-cases (recover_allocation (eip712 A domain) bundle.attestation)) [
      | inl missing ↦ absurd (ground arith)
      | inr found ↦ found
    ]

    pub all_pass : (passed (verify_offline bundle domain) ≡ true) ↔ (
        (is_pass (check_response bundle).outcome ≡ true)
        × (is_pass (check_request bundle).outcome ≡ true)
        × (is_pass (check_deployment bundle).outcome ≡ true)
        × (is_pass (check_recovery (recover bundle domain)).outcome ≡ true))
    unfolding verify_offline
    all_pass = ((λ h. ground arith), (λ h. ground arith))

    -- Offline verification passes exactly when the attestation binds the hashes of the response and of
    -- the request, the deployment of the bundle parses to the one that it names, and an allocation is
    -- recovered from its signature.
    pub verify_offline_iff : (passed (verify_offline bundle domain) ≡ true) ↔ IsBound bundle domain
    verify_offline_iff = (bound, verified)
      where
        bound : passed (verify_offline bundle domain) ≡ true → IsBound bundle domain
        bound h =
            let (p, q, d, s) = all_pass.0 h in
            let (allocation, found) = recovery_inv s in
            record {
              response_bound = text_eq_sound _ _ (sym (response_outcome bundle) ∙ p);
              request_bound = text_eq_sound _ _ (sym (request_outcome bundle) ∙ q);
              deployment_bound = (deployment_iff bundle).0 d;
              allocation = allocation;
              signer_recovered = found;
            }

        verified : IsBound bundle domain → passed (verify_offline bundle domain) ≡ true
        verified b = all_pass.1 (
          response_outcome bundle ∙ (text_eq_iff _ _).1 b.response_bound,
          request_outcome bundle ∙ (text_eq_iff _ _).1 b.request_bound,
          (deployment_iff bundle).1 b.deployment_bound,
          recovery_of_some b.allocation b.signer_recovered,
        )
