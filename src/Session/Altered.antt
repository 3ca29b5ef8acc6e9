-- ===== src/Session/Altered.antt =====
-- What the tripwire of the altered byte catches (main.rs).
use graph_privacy_showcase_d.Common.{
  Bool, true, not, ◌≡◌, ◌≢◌, ◌⊎◌, sym, ap, ◌∙◌, ok, >>=-eq-ok, ok-injective, Bool-cases, inl, inr,
}
use graph_privacy_showcase_d.Common.Text.{Text}
use graph_privacy_showcase_d.Attestation.{AuditBundle, passed}
use graph_privacy_showcase_d.Attestation.Offline.{verify_offline, verify_offline_iff}
use graph_privacy_showcase_d.Tamper.{alter_one_response_byte}
use graph_privacy_showcase_d.Tamper.Flip.{alter_one_response_byte_sound}
use graph_privacy_showcase_d.Session.Audit.{System, AuditArgs, tamper_byte}

module _ (S : System) where
  -- If the saved bundle verifies, and the tripwire of the altered byte ends without an error, then the
  -- verdict is that the tampering was caught, unless the response that the tripwire made, which is
  -- not the saved one, has the Keccak hash of the saved one.
  pub tamper_byte_caught :
      (args : AuditArgs S) (bundle : AuditBundle) (caught : Bool)
      → passed (verify_offline S.attestations bundle args.domain) ≡ true
      → tamper_byte S args bundle ≡ ok caught
      → (caught ≡ true)
        ⊎ ((response : Text) × (alter_one_response_byte bundle.response ≡ ok response)
            × (response ≢ bundle.response)
            × (S.attestations.keccak256 response ≡ S.attestations.keccak256 bundle.response))
  unfolding tamper_byte
  tamper_byte_caught args bundle caught verified e =
      let (response, altered, e1) = >>=-eq-ok (alter_one_response_byte bundle.response) _ e in
      let (_, _, _, _, _, _, changed) =
        alter_one_response_byte_sound bundle.response response altered in
      let tampered = record bundle { response = response } in
      let verdict = sym (ok-injective _ caught e1) in
      elim (Bool-cases (passed (verify_offline S.attestations tampered args.domain))) [
        | inr fails ↦ inl (verdict ∙ ap not fails)
        | inl passes ↦
            let before = (verify_offline_iff S.attestations bundle args.domain).0 verified in
            let after = (verify_offline_iff S.attestations tampered args.domain).0 passes in
            inr (response, altered, changed, sym after.response_bound ∙ before.response_bound)
      ]
