-- ===== src/Session.antt =====
-- main.rs of items/01-private-bond-replay/src/replay/src: how an answer is collected and its signer is
-- resolved. The commands stand in the modules below.
pub mod Sampling
pub mod Collecting
pub mod Verified
pub mod Audit
pub mod Outcome
pub mod Altered
pub mod Output
pub mod Commands
pub mod Exit
pub mod Listing
pub mod Listed
pub mod Compared
pub mod Seed
pub mod Tripwires
pub mod Program
pub mod Caught
pub mod Tampered
pub mod Success
use graph_privacy_showcase_d.Common.{
  ℕ, Bool, true, false, not, Option, none, some, List, [], ◌∷◌, ◌++◌, Result, ok, err, context,
  bail_if, request_failed, unreadable_body, http_status, unverified_answer, nothing_recovered,
  if◌then◌else◌,
}
use graph_privacy_showcase_d.Common.Effects.{Run, ◌>>=◌, lift, attempt}
use graph_privacy_showcase_d.Common.Text.{Text, codes, text_eq, to_lowercase}
use graph_privacy_showcase_d.Json.{Json}
use graph_privacy_showcase_d.Attestation.{
  AttestationOps, AuditBundle, DomainConfig, OfflineVerification, passed,
}
use graph_privacy_showcase_d.Attestation.Offline.{verify_offline}
use graph_privacy_showcase_d.Attestation.Signer.{
  ResolvedSigner, allocation_query, parse_allocation_response,
}
use graph_privacy_showcase_d.Consistency.{Collected}
use graph_privacy_showcase_d.Gateway.{Net, HttpResponse, client_post_body}
use graph_privacy_showcase_d.Gateway.Fetch.{send}

abbrev pub result_ok {ℓ} : {A : Type ℓ} → Result A → Option A
result_ok (ok a) = some a
result_ok (err e) = none

-- `out.contains(&id)`
unfoldable pub contains : Text → List Text → Bool
contains id [] = false
contains id (other ∷ rest) = if text_eq id other then true else contains id rest

module _ (N : Net) where
  unfoldable pub post_graphql : Text → Text → Run N.World Text
  post_graphql endpoint query = do
    response ← send N endpoint (client_post_body N query) none
    bytes ← lift (context unreadable_body response.bytes)
    lift (if response.is_success then ok (N.decode bytes) else err http_status)

  module _ (J : Json) where
    unfoldable pub resolve_signer : Text → Text → Text → Run N.World ResolvedSigner
    resolve_signer endpoint allocation deployment = do
      body ← post_graphql endpoint (allocation_query allocation)
      lift (parse_allocation_response J body deployment)

    module _ (A : AttestationOps) where
      -- What `collect` returns for a verified answer.
      unfoldable pub collected_as : AuditBundle → Text → Text → Run N.World Collected
      collected_as bundle allocation network_subgraph = do
        resolved ← attempt (resolve_signer network_subgraph allocation bundle.deployment)
        lift (
            ok (record { bundle = bundle; allocation = allocation; resolved = result_ok resolved }))

      unfoldable pub collect : AuditBundle → DomainConfig A → Text → Run N.World Collected
      collect bundle domain network_subgraph = do
        let verification = verify_offline A bundle domain
        checked ← lift (bail_if (not (passed verification)) unverified_answer)
        allocation ← lift (context nothing_recovered verification.recovered_allocation)
        collected_as bundle allocation network_subgraph

    -- The loop of `fetch_active_indexers` over the served allocations: lower-case and without repeats.
    unfoldable pub active_indexers : List J.Value → List Text → List Text
    active_indexers [] out = out
    active_indexers (a ∷ allocations) out = elim (J.pointer a (codes "/indexer/id")) [
      | none ↦ active_indexers allocations out
      | some v ↦ elim (J.as_str v) [
        | none ↦ active_indexers allocations out
        | some id ↦
            if contains (to_lowercase id) out
            then active_indexers allocations out
            else active_indexers allocations (out ++ to_lowercase id ∷ [])
      ]
    ]
