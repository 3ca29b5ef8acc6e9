-- ===== src/MockGateway/Resolves.antt =====
-- The stub of the network subgraph answers the client's query for an allocation (mock_gateway.rs,
-- attestation.rs).
use graph_privacy_showcase_d.Common.{
  ℕ, false, Option, Bool-cases, inl, inr, none, some, List, [], ◌∷◌, ◌++◌, ◌≡◌, ◌≢◌, refl, ap, ◌∙◌,
  arith, All, All-append, drop,
}
use graph_privacy_showcase_d.Common.Text.{
  Text, codes, text_eq, text_eq_iff, strip_prefix, to_lowercase, lower_char,
}
use graph_privacy_showcase_d.Json.{Json}
use graph_privacy_showcase_d.Attestation.{AttestationOps}
use graph_privacy_showcase_d.Attestation.Signer.{ResolvedSigner, allocation_query}
use graph_privacy_showcase_d.Gateway.{Net, client_post_body}
use graph_privacy_showcase_d.MockGateway.{ServerOps}
use graph_privacy_showcase_d.MockGateway.Served.{ServerLaws}
use graph_privacy_showcase_d.MockGateway.Stub.{
  split_once, before_of, second_of, second_piece, up_to_quote, wanted_id, StubResponse, stub_stake,
  allocations, allocation, find_allocation, signer_of, stub_answer, handle_stub,
}

abbrev Lacks : ℕ → Text → Type 0
Lacks x s = All (λ c. c ≢ x) s

-- A pattern with a character that a text lacks does not stand in the text.
strip_prefix-Lacks :
    (ps : Text) (x : ℕ) (qs s : Text) → Lacks x s → strip_prefix (ps ++ x ∷ qs) s ≡ none
unfolding strip_prefix
strip_prefix-Lacks [] x qs [] h = refl
strip_prefix-Lacks [] x qs (c ∷ s) h = ground arith
strip_prefix-Lacks (p ∷ ps) x qs [] h = refl
strip_prefix-Lacks (p ∷ ps) x qs (c ∷ s) h = ground (arith, strip_prefix-Lacks ps x qs s h.1)

split_once-Lacks :
    (ps : Text) (x : ℕ) (qs s : Text) → Lacks x s → split_once (ps ++ x ∷ qs) s ≡ none
unfolding split_once
split_once-Lacks ps x qs [] h = rw (split_once, strip_prefix-Lacks ps x qs [] h) refl
split_once-Lacks ps x qs (c ∷ s) h =
    rw (split_once, strip_prefix-Lacks ps x qs (c ∷ s) h, split_once-Lacks ps x qs s h.1) refl

split_once_at : (x : ℕ) (s t : Text) → Lacks x s → split_once (x ∷ []) (s ++ x ∷ t) ≡ some (s, t)
unfolding split_once strip_prefix
split_once_at x [] t h = ground arith
split_once_at x (c ∷ s) t h = ground (arith, split_once_at x s t h.1)

lower_char_idem : (c : ℕ) → lower_char (lower_char c) ≡ lower_char c
unfolding lower_char
lower_char_idem c = ground arith

to_lowercase_idem : (s : Text) → to_lowercase (to_lowercase s) ≡ to_lowercase s
unfolding to_lowercase
to_lowercase_idem [] = refl
to_lowercase_idem (c ∷ s) = cc (lower_char_idem c, to_lowercase_idem s)

-- A text without the characters that delimit the allocation in the query.
abbrev pub IsPlain : Text → Type 0
IsPlain s = Lacks b'(' s × Lacks b':' s × Lacks b'"' s

abbrev tail : Text
tail = codes "\"){id status allocatedTokens indexer{id stakedTokens} subgraphDeployment{ipfsHash}}}"

tail-Lacks : Lacks b'(' tail × Lacks b':' tail
tail-Lacks = (omega arith, omega arith)

module _ (a : Text) (plain : IsPlain (to_lowercase a)) where
  no_list : split_once (codes "allocations(") (allocation_query a) ≡ none
  unfolding split_once strip_prefix allocation_query
  no_list =
      rw
        (split_once-Lacks (codes "allocations") b'(' [] (to_lowercase a ++ tail)
          (All-append _ (to_lowercase a) tail plain.0 tail-Lacks.0))
        refl

  behind_id :
      split_once (codes "id:\"") (allocation_query a)
      ≡ some (codes "{allocation(", to_lowercase a ++ tail)
  unfolding split_once strip_prefix allocation_query
  behind_id = refl

  no_other_id : split_once (codes "id:\"") (to_lowercase a ++ tail) ≡ none
  no_other_id =
      split_once-Lacks (codes "id") b':' (codes "\"") (to_lowercase a ++ tail)
        (All-append _ (to_lowercase a) tail plain.1 tail-Lacks.1)

  up_to_tail : split_once (codes "\"") (to_lowercase a ++ tail) ≡ some (to_lowercase a, drop 1 tail)
  up_to_tail = split_once_at b'"' (to_lowercase a) (drop 1 tail) plain.2

  abbrev rest : Text
  rest = to_lowercase a ++ tail

  piece : second_piece (codes "id:\"") (allocation_query a) ≡ some rest
  piece = ap (second_of (codes "id:\"")) behind_id ∙ ap (λ o. some (before_of rest o)) no_other_id

  wanted_id-allocation_query : wanted_id (allocation_query a) ≡ to_lowercase a
  unfolding wanted_id
  wanted_id-allocation_query =
      ap (λ o. to_lowercase (up_to_quote o)) piece
      ∙ ap (λ o. to_lowercase (before_of rest o)) up_to_tail
      ∙ to_lowercase_idem a

-- The stub's answer for an allocation: the first of those listed that has its text, whatever the case of the
-- letters, with stake and for the deployment, or nothing if none has.
abbrev pub Answers : List (Text × Text) → Text → Text → StubResponse → Type 0
Answers indexers deployment a (allocations all) = ⊥
Answers indexers deployment a (allocation none) =
    All (λ (e : Text × Text). to_lowercase e.0 ≢ to_lowercase a) indexers
Answers indexers deployment a (allocation (some s)) =
    (before : List (Text × Text)) × (after : List (Text × Text)) × (indexers
      ≡ before ++ (s.allocation, s.indexer) ∷ after)
    × (to_lowercase s.allocation ≡ to_lowercase a)
    × All (λ (e : Text × Text). to_lowercase e.0 ≢ to_lowercase a) before
    × (s.staked_tokens ≡ stub_stake)
    × (s.status ≡ codes "Active")
    × (s.deployment ≡ deployment)

not_equal : (s t : Text) → text_eq s t ≡ false → s ≢ t
not_equal s t e same = ground (arith, (text_eq_iff s t).1 same)

one_earlier :
    (id indexer deployment a : Text) (others : List (Text × Text)) (o : Option ResolvedSigner)
    → to_lowercase id ≢ to_lowercase a
    → Answers others deployment a (allocation o)
    → Answers ((id, indexer) ∷ others) deployment a (allocation o)
one_earlier id indexer deployment a others none differs h = (differs, h)
one_earlier id indexer deployment a others (some s) differs h =
    let (before, after, are, same, none_before, stake, status, here) = h in
    (
      (id, indexer) ∷ before,
      after,
      ap (λ l. (id, indexer) ∷ l) are,
      same,
      (differs, none_before),
      stake,
      status,
      here,
    )

find_allocation-Answers :
    (indexers : List (Text × Text)) (deployment a : Text)
    → Answers indexers deployment a
        (allocation (signer_of deployment (find_allocation (to_lowercase a) indexers)))
unfolding find_allocation
find_allocation-Answers [] deployment a = tt
find_allocation-Answers ((id, indexer) ∷ others) deployment a =
    elim (Bool-cases (text_eq (to_lowercase id) (to_lowercase a))) [
      | inl same ↦
          rw (find_allocation, same)
            ([], others, refl, (text_eq_iff _ _).0 same, tt, refl, refl, refl)
      | inr other ↦
          rw (find_allocation, other)
            (one_earlier id indexer deployment a others
              (signer_of deployment (find_allocation (to_lowercase a) others)) (not_equal _ _ other)
              (find_allocation-Answers others deployment a))
    ]

module _ (N : Net) (J : Json) (A : AttestationOps) (X : ServerOps J A)
    (L : ServerLaws N J A X) where
  -- The stub answers the client's query for an allocation, whose text in lower case has no parenthesis,
  -- colon or quotation mark, with the first of its allocations that has this text in any case of its
  -- letters, together with its indexer, a stake and the deployment, or with none if there is none.
  pub handle_stub-allocation_query :
      (indexers : List (Text × Text)) (deployment a : Text)
      → IsPlain (to_lowercase a)
      → Answers indexers deployment a
          (handle_stub J indexers deployment (client_post_body N (allocation_query a)))
  unfolding handle_stub stub_answer
  handle_stub-allocation_query indexers deployment a plain =
      let (v, s, parsed, found, text, _) = L.body_parses (allocation_query a) in
      rw (parsed, found, text, no_list a plain, wanted_id-allocation_query a plain)
        (find_allocation-Answers indexers deployment a)
