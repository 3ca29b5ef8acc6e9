-- ===== src/Consistency/Agreement.antt =====
-- When answers agree, and when a report passes (consistency.rs).
use graph_privacy_showcase_d.Common.{
  ℕ, ◌≤◌, Bool, true, some, List, [], ◌∷◌, ◌++◌, ltb, ◌≡◌, ◌↔◌, refl, sym, ap, ◌∙◌, arith, length,
  all, count_where, is_empty, is_some, map, All, Option-cases, inl, inr,
}
use graph_privacy_showcase_d.Common.Text.{Text, text_eq, text_eq_iff, to_lowercase}
use graph_privacy_showcase_d.Json.{Json}
use graph_privacy_showcase_d.Attestation.{pass}
use graph_privacy_showcase_d.Attestation.Signer.{ResolvedSigner}
use graph_privacy_showcase_d.Consistency.{
  RouteKind, AgreementClass, byte_identical, serialization_level_divergence, data_divergence,
  Collected, all_adjacent, bodies, classify, distinct_indexers, indexer_key, agreement_failures,
  is_unresolved, build_report, push_if, below_minimum, unresolved_answers,
}
use graph_privacy_showcase_d.Consistency.Distinct.{
  first_occurrences, indexer_keys, length-distinct_indexers,
}

-- All elements are one and the same.
abbrev pub AllSame {ℓ} : {A : Type ℓ} → List A → Type ℓ
AllSame [] = Unit
AllSame (x ∷ xs) = All (λ y. x ≡ y) xs

All-map_to {ℓ κ ι} :
    {A : Type ℓ} {P : A → Type κ} {Q : A → Type ι} (f : (a : A) → P a → Q a) (xs : List A)
    → All P xs
    → All Q xs
All-map_to f [] h = tt
All-map_to f (x ∷ xs) (p, h) = (f x p, All-map_to f xs h)

adjacent_iff {ℓ} :
    {A : Type ℓ} (eq : A → A → Bool) (eq_iff : (a b : A) → (eq a b ≡ true) ↔ (a ≡ b)) (xs : List A)
    → (all_adjacent eq xs ≡ true) ↔ AllSame xs
adjacent_iff eq eq_iff [] = ((λ h. tt), (λ h. refl))
adjacent_iff eq eq_iff (x ∷ []) = ((λ h. tt), (λ h. refl))
adjacent_iff eq eq_iff (x ∷ y ∷ rest) =
    let later = adjacent_iff eq eq_iff (y ∷ rest) in
    (
      (λ h.
          let first : x ≡ y = (eq_iff x y).0 (ground arith) in
          (first, All-map_to (λ z e. first ∙ e) rest (later.0 (ground arith)))),
      (λ h. rw ((eq_iff x y).1 h.0) (later.1 (All-map_to (λ z e. sym h.0 ∙ e) rest h.1))),
    )

module _ (J : Json) (value_eq : J.Value → J.Value → Bool) where
  -- The class is byte-identical exactly when all responses are the same text.
  pub classify_identical_iff :
      (collected : List Collected)
      → (classify J value_eq collected ≡ byte_identical) ↔ AllSame (bodies collected)
  unfolding classify
  classify_identical_iff collected =
      let same = adjacent_iff text_eq text_eq_iff (bodies collected) in
      ((λ h. same.0 (ground arith)), (λ h. rw (same.1 h)))

abbrev pub IsResolved : Collected → Type 0
IsResolved c = is_some c.resolved ≡ true

none_unresolved :
    (collected : List Collected)
    → (count_where is_unresolved collected ≡ 0) ↔ All IsResolved collected
none_unresolved [] = ((λ h. tt), (λ h. refl))
none_unresolved (c ∷ cs) = (
  (λ h. (ground arith, (none_unresolved cs).0 (ground arith))),
  (λ h. rw h.0 ((none_unresolved cs).1 h.1)),
)

-- The signers of the answers, all of which are resolved.
abbrev pub SignedBy : List Collected → List ResolvedSigner → Type 0
SignedBy collected signers = map (λ (c : Collected). c.resolved) collected ≡ map some signers

-- How many different indexers some signers belong to, whatever the case of their addresses.
abbrev pub indexer_count : List ResolvedSigner → ℕ
indexer_count signers =
    first_occurrences [] (map (λ (s : ResolvedSigner). to_lowercase s.indexer) signers)

resolved_signers :
    (collected : List Collected)
    → All IsResolved collected
    → (signers : List ResolvedSigner) × SignedBy collected signers
resolved_signers [] h = ([], refl)
resolved_signers (c ∷ cs) (p, h) = elim (Option-cases c.resolved) [
  | inl nothing ↦ absurd (cc (rw nothing at p))
  | inr (s, found) ↦ let (signers, all) = resolved_signers cs h in (s ∷ signers, cc)
]

SignedBy-IsResolved :
    (collected : List Collected) (signers : List ResolvedSigner)
    → SignedBy collected signers
    → All IsResolved collected
      × (indexer_keys collected ≡ map (λ (s : ResolvedSigner). to_lowercase s.indexer) signers)
unfolding indexer_key
SignedBy-IsResolved [] [] e = (tt, refl)
SignedBy-IsResolved [] (s ∷ signers) e = absurd (cc)
SignedBy-IsResolved (c ∷ cs) [] e = absurd (cc)
SignedBy-IsResolved (c ∷ cs) (s ∷ signers) e =
    let first : c.resolved ≡ some s = cc in
    let (all, keys) = SignedBy-IsResolved cs signers (cc) in
    ((rw first refl, all), rw (first, keys) refl)

no_agreement_failure :
    (a : AgreementClass) → (is_empty (agreement_failures a) ≡ true) ↔ (a ≡ byte_identical)
unfolding agreement_failures
no_agreement_failure byte_identical = ((λ h. refl), (λ h. refl))
no_agreement_failure serialization_level_divergence = ((λ h. absurd (cc)), (λ h. absurd (cc)))
no_agreement_failure data_divergence = ((λ h. absurd (cc)), (λ h. absurd (cc)))

no_failure :
    (distinct min unresolved : ℕ) (a : AgreementClass)
    → (is_empty (
          push_if (ltb distinct min) (below_minimum distinct min)
          ++ (agreement_failures a ++ push_if (ltb 0 unresolved) (unresolved_answers unresolved)))
        ≡ true)
      ↔ ((min ≤ distinct) × (a ≡ byte_identical) × (unresolved ≡ 0))
unfolding agreement_failures
no_failure distinct min unresolved byte_identical = ground arith
no_failure distinct min unresolved serialization_level_divergence = ground arith
no_failure distinct min unresolved data_divergence = ground arith

module _ (hex_encode : List ℕ → Text) (J : Json) (value_eq : J.Value → J.Value → Bool) where
  -- A report passes exactly when all answers have resolved signers, these belong to at least the requested
  -- number of different indexers, and all responses are the same text.
  pub build_report_pass_iff :
      (deployment hash : Text) (number min : ℕ) (route : RouteKind) (collected : List Collected)
      → ((build_report hex_encode J value_eq deployment number hash route min collected).result
          ≡ pass)
        ↔ ((signers : List ResolvedSigner) × SignedBy collected signers
            × (min ≤ indexer_count signers)
            × AllSame (bodies collected))
  unfolding build_report
  build_report_pass_iff deployment hash number min route collected =
      let distinct = length-distinct_indexers collected in
      let agree = classify_identical_iff J value_eq collected in
      let resolved = none_unresolved collected in
      let quiet =
        no_failure (length (distinct_indexers collected)) min (count_where is_unresolved collected)
          (classify J value_eq collected) in
      (
        (λ h.
            let (a, b, c) = quiet.0 (ground arith) in
            let (signers, signed) = resolved_signers collected (resolved.0 c) in
            let keys = ap (first_occurrences []) (SignedBy-IsResolved collected signers signed).1 in
            (signers, signed, omega arith, agree.0 b)),
        (λ (signers, signed, enough, same).
            let (all, keyed) = SignedBy-IsResolved collected signers signed in
            let keys = ap (first_occurrences []) keyed in
            rw (quiet.1 (omega arith, agree.1 same, resolved.1 all))),
      )
