-- ===== src/Consistency.antt =====
-- consistency.rs of items/01-private-bond-replay/src/replay/src: whether the answers of several indexers
-- agree, and how many parties signed them.
pub mod Distinct
pub mod Agreement
use graph_privacy_showcase_d.Common.{
  ℕ, zero, suc, ◌+◌, Bool, true, false, not, ◌&&◌, Option, none, some, List, [], ◌∷◌, ◌++◌,
  if◌then◌else◌, ltb, ◌==◌, length, all, count_where, is_empty, is_some, map,
}
use graph_privacy_showcase_d.Common.Text.{Text, codes, text_eq, to_lowercase, byte_len}
use graph_privacy_showcase_d.Common.BTreeMap.{BTreeMap, text_ord, get, insert}
use graph_privacy_showcase_d.Json.{Json}
use graph_privacy_showcase_d.Attestation.{AuditBundle, CheckOutcome, pass, fail}
use graph_privacy_showcase_d.Attestation.Signer.{ResolvedSigner}

pub data RouteKind : Type 0 where
  targeted_per_indexer best_effort_main_route : RouteKind

unfoldable pub supports_coverage_claim : RouteKind → Bool
supports_coverage_claim targeted_per_indexer = true
supports_coverage_claim best_effort_main_route = false

pub data AgreementClass : Type 0 where
  byte_identical serialization_level_divergence data_divergence : AgreementClass

pub record SignerObservation : Type 0 where
  pub allocation : Text
  pub indexer : Option Text
  pub staked_tokens : Option Text
  pub allocation_status : Option Text
  pub response_cid : Text
  pub response_bytes : ℕ

-- The sentences of `failures`, by the values that they show.
pub data Failure : Type 0 where
  below_minimum : ℕ → ℕ → Failure
  serialization_divergence data_disagreement : Failure
  unresolved_answers : ℕ → Failure

-- The two sentences of `means`.
pub data Means : Type 0 where
  signed_by : ℕ → Means
  best_effort_sampling : Means

pub record ConsistencyReport : Type 0 where
  pub schema : Text
  pub deployment : Text
  pub pinned_block_number : ℕ
  pub pinned_block_hash : Text
  pub route : RouteKind
  pub coverage_claim_supported : Bool
  pub min_signers_requested : ℕ
  pub distinct_signers_observed : ℕ
  pub observations : List SignerObservation
  pub agreement : AgreementClass
  pub result : CheckOutcome
  pub failures : List Failure
  pub means : Means

abbrev report_schema : Text
report_schema = codes "bond-replay/consistency-report/1"

pub record Collected : Type 0 where
  pub bundle : AuditBundle
  pub allocation : Text
  pub resolved : Option ResolvedSigner

-- `xs.windows(2).all(|w| eq(w[0], w[1]))`
abbrev pub all_adjacent {ℓ} : {A : Type ℓ} → (A → A → Bool) → List A → Bool
all_adjacent eq [] = true
all_adjacent eq (x ∷ []) = true
all_adjacent eq (x ∷ y ∷ rest) = eq x y && all_adjacent eq (y ∷ rest)

abbrev pub option_eq {ℓ} : {A : Type ℓ} → (A → A → Bool) → Option A → Option A → Bool
option_eq eq none none = true
option_eq eq (some a) (some b) = eq a b
option_eq eq _ _ = false

abbrev pub bodies : List Collected → List Text
bodies collected = map (λ (c : Collected). c.bundle.response) collected

-- The crate `serde_json`: its parser, and the equality of its values.
module _ (J : Json) (value_eq : J.Value → J.Value → Bool) where
  abbrev pub parsed : List Collected → List (Option J.Value)
  parsed collected = map (λ b. J.from_str b) (bodies collected)

  unfoldable pub classify : List Collected → AgreementClass
  classify collected =
      if all_adjacent text_eq (bodies collected)
      then byte_identical
      else if all is_some (parsed collected) && all_adjacent (option_eq value_eq) (parsed collected)
      then serialization_level_divergence
      else data_divergence

unfoldable pub indexer_key : Collected → Text
indexer_key c = elim c.resolved [
  | some r ↦ to_lowercase r.indexer
  | none ↦ codes "unresolved-allocation:" ++ to_lowercase c.allocation
]

abbrev pub or_zero : Option ℕ → ℕ
or_zero none = 0
or_zero (some n) = n

-- The loop of `distinct_indexers`, from the counts so far.
unfoldable pub count_keys : List Collected → BTreeMap Text ℕ → BTreeMap Text ℕ
count_keys [] counts = counts
count_keys (c ∷ cs) counts =
    count_keys cs (insert (indexer_key c) (or_zero (get (indexer_key c) counts) + 1) counts)

unfoldable pub distinct_indexers : List Collected → BTreeMap Text ℕ
distinct_indexers collected = count_keys collected []

abbrev pub push_if : Bool → Failure → List Failure
push_if true failure = failure ∷ []
push_if false failure = []

unfoldable pub agreement_failures : AgreementClass → List Failure
agreement_failures byte_identical = []
agreement_failures serialization_level_divergence = serialization_divergence ∷ []
agreement_failures data_divergence = data_disagreement ∷ []

abbrev pub is_unresolved : Collected → Bool
is_unresolved c = not (is_some c.resolved)

-- `map` of an option.
abbrev of_signer : (ResolvedSigner → Text) → Option ResolvedSigner → Option Text
of_signer f none = none
of_signer f (some r) = some (f r)

-- The crate `hex`: `hex::encode`.
module _ (hex_encode : List ℕ → Text) where
  unfoldable pub observe : Collected → SignerObservation
  observe c = record {
    allocation = to_lowercase c.allocation;
    indexer = of_signer (λ r. r.indexer) c.resolved;
    staked_tokens = of_signer (λ r. r.staked_tokens) c.resolved;
    allocation_status = of_signer (λ r. r.status) c.resolved;
    response_cid = codes "0x" ++ hex_encode c.bundle.attestation.response_cid;
    response_bytes = byte_len c.bundle.response;
  }

  module _ (J : Json) (value_eq : J.Value → J.Value → Bool) where
    unfoldable pub build_report :
        Text → ℕ → Text → RouteKind → ℕ → List Collected → ConsistencyReport
    build_report deployment number hash route min_signers collected =
        let agreement = classify J value_eq collected in
        let distinct = length (distinct_indexers collected) in
        let unresolved = count_where is_unresolved collected in
        let failures =
          push_if (ltb distinct min_signers) (below_minimum distinct min_signers)
          ++ (agreement_failures agreement
              ++ push_if (ltb 0 unresolved) (unresolved_answers unresolved)) in
        record {
          schema = report_schema;
          deployment = deployment;
          pinned_block_number = number;
          pinned_block_hash = hash;
          route = route;
          coverage_claim_supported = supports_coverage_claim route;
          min_signers_requested = min_signers;
          distinct_signers_observed = distinct;
          observations = map observe collected;
          agreement = agreement;
          result = if is_empty failures then pass else fail;
          failures = failures;
          means =
              if supports_coverage_claim route then signed_by distinct else best_effort_sampling;
        }
