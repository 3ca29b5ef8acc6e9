-- ===== src/Attestation/Signer.antt =====
-- Signer resolution against the network subgraph: `allocation_query` and `parse_allocation_response` of
-- attestation.rs.
use graph_privacy_showcase_d.Common.{
  Bool, true, false, All, [], ◌∷◌, refl, Option, none, some, ◌++◌, ◌≡◌, arith, ◌==◌, is_empty, not,
  Result, ok, ◌>>=◌, ◌>>◌, bail_if, context, not_json, graphql_errors, missing_field,
  unresolvable_signature, other_deployment, zero_stake, Option-cases, inl, inr,
}
use graph_privacy_showcase_d.Common.Text.{
  Text, codes, text_eq, text_eq_sound, to_lowercase, drop_while,
}
use graph_privacy_showcase_d.Json.{Json, carries_errors, HasNoErrors, carries_errors_iff}

unfoldable pub allocation_query : Text → Text
allocation_query allocation =
    codes "{allocation(id:\""
    ++ to_lowercase allocation
    ++ codes "\"){id status allocatedTokens indexer{id stakedTokens} subgraphDeployment{ipfsHash}}}"

pub record ResolvedSigner : Type 0 where
  pub allocation : Text
  pub indexer : Text
  pub staked_tokens : Text
  pub allocated_tokens : Text
  pub status : Text
  pub deployment : Text

-- `staked_tokens.trim_start_matches('0').is_empty()`
unfoldable pub is_zero_stake : Text → Bool
unfolding drop_while
is_zero_stake staked_tokens = is_empty (drop_while (λ c. c == b'0') staked_tokens)

all_zeros : (s : Text) → All (λ c. c ≡ b'0') s → is_zero_stake s ≡ true
unfolding is_zero_stake drop_while
all_zeros [] h = refl
all_zeros (c ∷ s) (p, h) = rw (p, all_zeros s h) refl

not_zero : (s : Text) → is_zero_stake s ≡ false → ¬ All (λ c. c ≡ b'0') s
not_zero s e h = absurd (cc (all_zeros s h))

module _ (J : Json) where
  open J use {Value}

  -- `allocation.pointer(path).and_then(as_str)`
  abbrev pub text_at : Value → Text → Option Text
  text_at allocation path = elim (J.pointer allocation path) [ none ↦ none | some v ↦ J.as_str v ]

  abbrev get : Value → Text → Result Text
  get allocation path = context (missing_field path) (text_at allocation path)

  unfoldable pub read_allocation : Value → Text → Result ResolvedSigner
  read_allocation allocation expected_deployment = do
    bail_if (J.is_null allocation) unresolvable_signature
    deployment ← get allocation (codes "/subgraphDeployment/ipfsHash")
    bail_if (not (text_eq deployment expected_deployment))
        (other_deployment deployment expected_deployment)
    staked_tokens ← get allocation (codes "/indexer/stakedTokens")
    bail_if (is_zero_stake staked_tokens) zero_stake
    id ← get allocation (codes "/id")
    indexer ← get allocation (codes "/indexer/id")
    allocated_tokens ← get allocation (codes "/allocatedTokens")
    status ← get allocation (codes "/status")
    ok (record {
      allocation = id;
      indexer = indexer;
      staked_tokens = staked_tokens;
      allocated_tokens = allocated_tokens;
      status = status;
      deployment = deployment;
    })

  unfoldable pub parse_allocation_response : Text → Text → Result ResolvedSigner
  parse_allocation_response body expected_deployment = do
    envelope ← context not_json (J.from_str body)
    bail_if (carries_errors J envelope) graphql_errors
    allocation ←
        context (missing_field (codes "/data/allocation"))
          (J.pointer envelope (codes "/data/allocation"))
    read_allocation allocation expected_deployment

  -- What a resolved signer was read from.
  pub record IsStaked (allocation : Value) (expected_deployment : Text) (s : ResolvedSigner)
      : Type 0 where
    pub exists : J.is_null allocation ≡ false
    pub on_deployment : s.deployment ≡ expected_deployment
    pub has_stake : ¬ All (λ c. c ≡ b'0') s.staked_tokens
    pub deployment_served :
        text_at allocation (codes "/subgraphDeployment/ipfsHash") ≡ some s.deployment
    pub stake_served : text_at allocation (codes "/indexer/stakedTokens") ≡ some s.staked_tokens
    pub id_served : text_at allocation (codes "/id") ≡ some s.allocation
    pub indexer_served : text_at allocation (codes "/indexer/id") ≡ some s.indexer

  read_allocation_sound :
      (allocation : Value) (expected : Text) (s : ResolvedSigner)
      → read_allocation allocation expected ≡ ok s
      → IsStaked allocation expected s
  unfolding read_allocation
  read_allocation_sound allocation expected s e = record {
    exists = ground arith;
    on_deployment = text_eq_sound s.deployment expected (ground arith);
    has_stake = not_zero s.staked_tokens (ground arith);
    deployment_served = ground arith;
    stake_served = ground arith;
    id_served = ground arith;
    indexer_served = ground arith;
  }

  -- A signer is resolved only from a response whose field `errors` is missing, null or empty, and that names an allocation
  -- that is not null, on the deployment that was asked for, with a stake whose text is not empty or all zeros;
  -- the indexer,
  -- the allocation, the stake and the deployment are the texts that the response holds.
  pub parse_allocation_response_sound :
      (body expected : Text) (s : ResolvedSigner)
      → parse_allocation_response body expected ≡ ok s
      → (envelope : Value) × (allocation : Value) × (J.from_str body ≡ some envelope)
        × HasNoErrors J envelope
        × (J.pointer envelope (codes "/data/allocation") ≡ some allocation)
        × IsStaked allocation expected s
  unfolding parse_allocation_response
  parse_allocation_response_sound body expected s e = elim (Option-cases (J.from_str body)) [
    | inl bad ↦ absurd (ground arith)
    | inr (envelope, parsed) ↦ elim (Option-cases (J.pointer envelope (codes "/data/allocation"))) [
      | inl bad ↦ absurd (ground arith)
      | inr (allocation, found) ↦ (
        envelope,
        allocation,
        parsed,
        (carries_errors_iff J envelope).0 (ground arith),
        found,
        read_allocation_sound allocation expected s (ground arith),
      )
    ]
  ]
