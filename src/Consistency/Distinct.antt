-- ===== src/Consistency/Distinct.antt =====
-- What `distinct_indexers` counts (consistency.rs).
use graph_privacy_showcase_d.Common.{
  ℕ, suc, ◌+◌, Bool, true, false, ◌||◌, some, List, [], ◌∷◌, if◌then◌else◌, ◌≡◌, refl, sym, ap, ◌∙◌,
  length, count_where, is_some, map, arith, Bool-cases, inl, inr, Option, none, ◌++◌, All,
  Option-cases,
}
use graph_privacy_showcase_d.Common.Text.{
  Text, codes, text_eq, text_eq_iff, strip_prefix, to_lowercase,
}
use graph_privacy_showcase_d.Attestation.Signer.{ResolvedSigner}
use graph_privacy_showcase_d.Common.BTreeMap.{
  BTreeMap, text_ord, text_cmp, get, insert, is_eq, key_eq_iff, get-insert,
}
use graph_privacy_showcase_d.Common.BTreeMap.Sorted.{Sorted, insert-Sorted, length-insert}
use graph_privacy_showcase_d.Consistency.{
  Collected, indexer_key, count_keys, distinct_indexers, or_zero,
}

abbrev pub occurs : Text → List Text → Bool
occurs k [] = false
occurs k (j ∷ js) = text_eq k j || occurs k js

-- How many texts of a list are neither among those seen before it nor earlier in it.
abbrev pub first_occurrences : List Text → List Text → ℕ
first_occurrences seen [] = 0
first_occurrences seen (k ∷ ks) =
    if occurs k seen then first_occurrences seen ks else suc (first_occurrences (k ∷ seen) ks)

abbrev pub indexer_keys : List Collected → List Text
indexer_keys collected = map indexer_key collected

cmp_text_eq : (s t : Text) → is_eq (text_cmp s t) ≡ text_eq s t
cmp_text_eq s t = ground (arith, key_eq_iff s t, text_eq_iff s t)

get-insert_text {ℓ} :
    {V : Type ℓ} (k j : Text) (v : V) (m : BTreeMap Text V)
    → get j (insert k v m) ≡ (if text_eq j k then some v else get j m)
get-insert_text k j v m = rw (← cmp_text_eq j k) (get-insert k j v m)

seen_insert :
    (k : Text) (v : ℕ) (seen : List Text) (m : BTreeMap Text ℕ)
    → ((j : Text) → occurs j seen ≡ is_some (get j m))
    → occurs k seen ≡ true
    → (j : Text) → occurs j seen ≡ is_some (get j (insert k v m))
seen_insert k v seen m same old j = rw (get-insert_text k j v m) (elim (Bool-cases (text_eq j k)) [
  | inl e ↦ rw (e, (text_eq_iff j k).0 e) old
  | inr e ↦ rw e (same j)
])

seen_new :
    (k : Text) (v : ℕ) (seen : List Text) (m : BTreeMap Text ℕ)
    → ((j : Text) → occurs j seen ≡ is_some (get j m))
    → (j : Text) → occurs j (k ∷ seen) ≡ is_some (get j (insert k v m))
seen_new k v seen m same j = rw (get-insert_text k j v m) (ground (arith, same j))

length-count_keys :
    (cs : List Collected) (seen : List Text) (m : BTreeMap Text ℕ)
    → Sorted m
    → ((j : Text) → occurs j seen ≡ is_some (get j m))
    → length (count_keys cs m) ≡ length m + first_occurrences seen (indexer_keys cs)
unfolding count_keys
length-count_keys [] seen m s same = omega arith
length-count_keys (c ∷ cs) seen m s same =
    let k = indexer_key c in
    let v = or_zero (get k m) + 1 in
    let size = length-insert k v m s in
    elim (Bool-cases (occurs k seen)) [
      | inl old ↦
          let later =
            length-count_keys cs seen (insert k v m) (insert-Sorted k v m s)
              (seen_insert k v seen m same old) in
          rw (old, later, size, sym (same k) ∙ old)
      | inr new ↦
          let later =
            length-count_keys cs (k ∷ seen) (insert k v m) (insert-Sorted k v m s)
              (seen_new k v seen m same) in
          rw (new, later, size, sym (same k) ∙ new) (omega arith)
    ]

pub length-distinct_indexers :
    (collected : List Collected)
    → length (distinct_indexers collected) ≡ first_occurrences [] (indexer_keys collected)
unfolding distinct_indexers
length-distinct_indexers collected =
    length-count_keys collected [] [] tt (λ j. unfold get in refl) ∙ omega arith

get-count_keys :
    (cs : List Collected) (m : BTreeMap Text ℕ) (k : Text)
    → or_zero (get k (count_keys cs m))
      ≡ or_zero (get k m) + count_where (λ c. text_eq k (indexer_key c)) cs
unfolding count_keys
get-count_keys [] m k = omega arith
get-count_keys (c ∷ cs) m k =
    let j = indexer_key c in
    let v = or_zero (get j m) + 1 in
    rw (get-count_keys cs (insert j v m) k, get-insert_text j k v m)
      (elim (Bool-cases (text_eq k j)) [
        | inl e ↦
            let same : or_zero (get k m) ≡ or_zero (get j m) =
              ap (λ t. or_zero (get t m)) ((text_eq_iff k j).0 e) in
            rw (e, same) (omega arith)
        | inr e ↦ rw e
      ])

-- Under every key stands the number of answers with this key.
pub get-distinct_indexers :
    (collected : List Collected) (k : Text)
    → or_zero (get k (distinct_indexers collected))
      ≡ count_where (λ c. text_eq k (indexer_key c)) collected
unfolding distinct_indexers
get-distinct_indexers collected k = get-count_keys collected [] k ∙ unfold get in omega arith

-- Whether two answers come from one party: one indexer, or one allocation whose indexer is not known.
abbrev same_party_of : Option ResolvedSigner → Text → Option ResolvedSigner → Text → Bool
same_party_of (some r) a (some s) b = text_eq (to_lowercase r.indexer) (to_lowercase s.indexer)
same_party_of none a none b = text_eq (to_lowercase a) (to_lowercase b)
same_party_of _ a _ b = false

abbrev pub same_party : Collected → Collected → Bool
same_party c d = same_party_of c.resolved c.allocation d.resolved d.allocation

abbrev is_among : Collected → List Collected → Bool
is_among c [] = false
is_among c (d ∷ ds) = same_party c d || is_among c ds

-- How many answers come from a party that no answer before them came from.
abbrev pub parties : List Collected → List Collected → ℕ
parties seen [] = 0
parties seen (c ∷ cs) = if is_among c seen then parties seen cs else suc (parties (c ∷ seen) cs)

-- A served indexer is not the mark of an unresolved allocation.
abbrev HasAddress : Option ResolvedSigner → Type 0
HasAddress none = Unit
HasAddress (some r) = strip_prefix (codes "unresolved-allocation:") (to_lowercase r.indexer) ≡ none

abbrev pub IsAddressed : Collected → Type 0
IsAddressed c = HasAddress c.resolved

pub text_eq_sym : (s t : Text) → text_eq s t ≡ text_eq t s
text_eq_sym s t = ground (arith, text_eq_iff s t, text_eq_iff t s)

text_eq_prefix : (p s t : Text) → text_eq (p ++ s) (p ++ t) ≡ text_eq s t
unfolding text_eq
text_eq_prefix [] s t = refl
text_eq_prefix (c ∷ p) s t = ground (arith, text_eq_prefix p s t)

text_eq_no_prefix : (p s t : Text) → strip_prefix p t ≡ none → text_eq (p ++ s) t ≡ false
unfolding text_eq strip_prefix
text_eq_no_prefix [] s t e = absurd (cc)
text_eq_no_prefix (c ∷ p) s [] e = refl
text_eq_no_prefix (c ∷ p) s (d ∷ t) e = ground (arith, text_eq_no_prefix p s t)

abbrev key_of : Option ResolvedSigner → Text → Text
key_of (some r) a = to_lowercase r.indexer
key_of none a = codes "unresolved-allocation:" ++ to_lowercase a

key_of-same_party :
    (o : Option ResolvedSigner) (a : Text) (p : Option ResolvedSigner) (b : Text)
    → HasAddress o
    → HasAddress p
    → text_eq (key_of o a) (key_of p b) ≡ same_party_of o a p b
key_of-same_party (some r) a (some s) b h k = refl
key_of-same_party none a none b h k =
    text_eq_prefix (codes "unresolved-allocation:") (to_lowercase a) (to_lowercase b)
key_of-same_party (some r) a none b h k =
    text_eq_sym _ _ ∙ text_eq_no_prefix (codes "unresolved-allocation:") (to_lowercase b) _ h
key_of-same_party none a (some s) b h k =
    text_eq_no_prefix (codes "unresolved-allocation:") (to_lowercase a) _ k

indexer_key-key_of : (c : Collected) → indexer_key c ≡ key_of c.resolved c.allocation
unfolding indexer_key
indexer_key-key_of c = elim (Option-cases c.resolved) [
  | inl nothing ↦ rw nothing refl
  | inr (r, found) ↦ rw found refl
]

occurs-is_among :
    (c : Collected) (seen : List Collected)
    → IsAddressed c
    → All IsAddressed seen
    → occurs (indexer_key c) (indexer_keys seen) ≡ is_among c seen
occurs-is_among c [] h k = refl
occurs-is_among c (d ∷ seen) h (p, k) =
    rw
      (
        indexer_key-key_of c,
        indexer_key-key_of d,
        key_of-same_party c.resolved c.allocation d.resolved d.allocation h p,
        occurs-is_among c seen h k,
      )
      refl

first_occurrences-parties :
    (seen cs : List Collected)
    → All IsAddressed seen
    → All IsAddressed cs
    → first_occurrences (indexer_keys seen) (indexer_keys cs) ≡ parties seen cs
first_occurrences-parties seen [] h k = refl
first_occurrences-parties seen (c ∷ cs) h (p, k) =
    rw
      (
        occurs-is_among c seen p h,
        first_occurrences-parties seen cs h k,
        first_occurrences-parties (c ∷ seen) cs (p, h) k,
      )
      refl

-- If no resolved indexer has an address that starts with the mark of unresolved allocations, then the
-- number of keys is the number of parties. Two answers with resolved signers come from one party exactly
-- if they have one indexer, and two whose signers are not resolved exactly if they have one allocation,
-- both in any case of their letters; an answer of each kind comes from two parties.
pub length-distinct_indexers-parties :
    (collected : List Collected)
    → All IsAddressed collected
    → length (distinct_indexers collected) ≡ parties [] collected
length-distinct_indexers-parties collected h =
    length-distinct_indexers collected ∙ first_occurrences-parties [] collected tt h
