-- ===== src/Session/Sampling.antt =====
-- The two loops of `cmd_consistency` of main.rs that collect answers.
use graph_privacy_showcase_d.Common.{
  ℕ, zero, suc, Bool, true, false, none, some, List, [], ◌∷◌, ◌++◌, if◌then◌else◌, leb, length,
  Result, ok, err,
}
use graph_privacy_showcase_d.Common.Effects.{Run, ◌>>=◌, lift, attempt}
use graph_privacy_showcase_d.Common.Text.{Text}
use graph_privacy_showcase_d.Json.{Json}
use graph_privacy_showcase_d.Attestation.{AttestationOps, AuditBundle, DomainConfig}
use graph_privacy_showcase_d.Consistency.{
  Collected, RouteKind, targeted_per_indexer, best_effort_main_route, distinct_indexers,
}
use graph_privacy_showcase_d.Gateway.{Net, GatewayClient, deployment_url, indexer_url}
use graph_privacy_showcase_d.Gateway.Fetch.{fetch}
use graph_privacy_showcase_d.Session.{collect}

-- What a round of the loops needs: the arguments of the command, and the query at the pinned block.
pub record Sample (A : AttestationOps) : Type 0 where
  pub client : GatewayClient
  pub deployment : Text
  pub query : Text
  pub domain : DomainConfig A
  pub network_subgraph : Text
  pub min_signers : ℕ

-- `distinct_indexers(&collected).len() >= args.min_signers`
abbrev pub has_enough : ℕ → List Collected → Bool
has_enough min_signers collected = leb min_signers (length (distinct_indexers collected))

-- `targeted_worked` after an answer.
abbrev pub has_worked : Bool → Result AuditBundle → Bool
has_worked worked (ok bundle) = true
has_worked worked (err e) = worked

module _ (N : Net) (J : Json) (A : AttestationOps) (S : Sample A) where
  -- The `match` on a fetched answer: what was collected with the answer, or as it was if none came.
  unfoldable pub add_answer : List Collected → Result AuditBundle → Run N.World (List Collected)
  add_answer collected (err e) = lift (ok collected)
  add_answer collected (ok bundle) = do
    c ← collect N J A bundle S.domain S.network_subgraph
    lift (ok (collected ++ c ∷ []))

  -- The loop over the candidates on the targeted route. The flag says whether an answer came.
  unfoldable pub sample_targeted :
      List Text → List Collected → Bool → Run N.World (List Collected × Bool)
  sample_targeted [] collected worked = lift (ok (collected, worked))
  sample_targeted (indexer ∷ candidates) collected worked =
      if has_enough S.min_signers collected
      then lift (ok (collected, worked))
      else attempt (
          fetch N S.client (indexer_url S.client S.deployment indexer) S.query S.deployment
            (some indexer))
        >>= λ answer. add_answer collected answer >>= λ next.
            sample_targeted candidates next (has_worked worked answer)

  -- The loop over the attempts on the main route.
  unfoldable pub sample_main_route : ℕ → List Collected → Run N.World (List Collected)
  sample_main_route zero collected = lift (ok collected)
  sample_main_route (suc attempts) collected =
      if has_enough S.min_signers collected
      then lift (ok collected)
      else attempt
          (fetch N S.client (deployment_url S.client S.deployment) S.query S.deployment none)
        >>= λ answer. add_answer collected answer >>= λ next. sample_main_route attempts next

  unfoldable pub fall_back : ℕ → List Collected × Bool → Run N.World (List Collected × RouteKind)
  fall_back max_attempts (collected, true) = lift (ok (collected, targeted_per_indexer))
  fall_back max_attempts (collected, false) = do
    sampled ← sample_main_route max_attempts collected
    lift (ok (sampled, best_effort_main_route))

  -- The answers, and the route they came by.
  unfoldable pub sample : List Text → ℕ → Run N.World (List Collected × RouteKind)
  sample candidates max_attempts = do
    targeted ← sample_targeted candidates [] false
    fall_back max_attempts targeted
