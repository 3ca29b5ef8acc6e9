-- ===== src/Tamper/Resigned.antt =====
-- A bundle that is altered and signed again passes the attestation's checks; one that is only altered
-- fails a single one (tamper.rs).
use graph_privacy_showcase_d.Common.{
  true, some, [], ◌∷◌, ◌≡◌, ◌≢◌, refl, sym, ap, ◌∙◌, ok, context, >>=-eq-ok, ok-injective,
  context-eq-ok, not_a_deployment,
}
use graph_privacy_showcase_d.Common.Text.{Text, codes}
use graph_privacy_showcase_d.Json.{Json}
use graph_privacy_showcase_d.Attestation.{B256, AttestationOps, AuditBundle, passed, DomainConfig}
use graph_privacy_showcase_d.Attestation.Offline.{verify_offline, verify_offline_iff}
use graph_privacy_showcase_d.Attestation.Isolation.{failed_steps, altered_response_isolated}
use graph_privacy_showcase_d.Tamper.Flip.{alter_one_response_byte_sound}
use graph_privacy_showcase_d.Tamper.{
  JsonEdit, alter_a_served_commitment, alter_one_response_byte, resign_altered_anchors,
}

-- What `attestation::create` of the crate `thegraph-core` promises: the hashes of both texts, the
-- deployment, and a signature from which the address of the signer is recovered.
pub record CreateLaws (A : AttestationOps) : Type 0 where
  pub address : A.Signer → A.Address
  pub binds_response :
      (d : A.Domain) (s : A.Signer) (deployment : B256) (request response : Text)
      → (A.create d s deployment request response).response_cid ≡ A.keccak256 response
  pub binds_request :
      (d : A.Domain) (s : A.Signer) (deployment : B256) (request response : Text)
      → (A.create d s deployment request response).request_cid ≡ A.keccak256 request
  pub binds_deployment :
      (d : A.Domain) (s : A.Signer) (deployment : B256) (request response : Text)
      → (A.create d s deployment request response).deployment ≡ deployment
  pub recovers :
      (d : A.Domain) (s : A.Signer) (deployment : B256) (request response : Text)
      → A.recover_allocation d (A.create d s deployment request response) ≡ some (address s)

module _ (J : Json) (E : JsonEdit J) (A : AttestationOps) (L : CreateLaws A) where
  -- Where signatures are made as documented, a bundle that `resign_altered_anchors` returns holds
  -- the altered response, keeps the request, and passes the offline verification.
  pub resigned_passes :
      (bundle liar : AuditBundle) (domain : DomainConfig A) (signer : A.Signer)
      → resign_altered_anchors J E A bundle domain signer ≡ ok liar
      → (alter_a_served_commitment J E bundle.response ≡ ok liar.response)
        × (liar.request ≡ bundle.request)
        × (passed (verify_offline A liar domain) ≡ true)
  unfolding resign_altered_anchors
  resigned_passes bundle liar domain signer e =
      let (response, altered, e1) = >>=-eq-ok (alter_a_served_commitment J E bundle.response) _ e in
      let (deployment, parsed, e2) =
        >>=-eq-ok
          (context (not_a_deployment bundle.deployment) (A.parse_deployment bundle.deployment)) _
          e1 in
      rw (sym (ok-injective _ _ e2)) (
        altered,
        refl,
        (verify_offline_iff A _ domain).1 (record {
          response_bound = L.binds_response _ signer deployment bundle.request response;
          request_bound = L.binds_request _ signer deployment bundle.request response;
          deployment_bound =
              context-eq-ok _ _ parsed
              ∙ ap some (sym (L.binds_deployment _ signer deployment bundle.request response));
          allocation = L.address signer;
          signer_recovered = L.recovers _ signer deployment bundle.request response;
        }),
      )

module _ (A : AttestationOps) where
  -- If a bundle verifies, and one character of its response is altered so that the hash changes,
  -- the one check that fails is that of the response.
  pub altered_byte_isolated :
      (bundle : AuditBundle) (domain : DomainConfig A) (altered : Text)
      → passed (verify_offline A bundle domain) ≡ true
      → alter_one_response_byte bundle.response ≡ ok altered
      → (altered ≢ bundle.response → A.keccak256 altered ≢ A.keccak256 bundle.response)
      → failed_steps (verify_offline A (record bundle { response = altered }) domain)
        ≡ codes "responseCID" ∷ []
  altered_byte_isolated bundle domain altered h e distinct =
      let (_, _, _, _, _, _, changed) = alter_one_response_byte_sound bundle.response altered e in
      (altered_response_isolated A bundle domain altered h (distinct changed)).0
