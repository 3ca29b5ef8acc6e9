-- ===== src/Fixtures/Made.antt =====
-- `generate_with_maturity` returns for every maturity of 64 bits, and what it returns (fixtures.rs).
use graph_privacy_showcase_d.Common.{
  ℕ, ◌%◌, ◌<◌, Option, none, some, List, [], ◌∷◌, ◌++◌, map, ◌≡◌, refl, sym, ap, ◌∙◌, arith, All,
  if◌then◌else◌, ok,
}
use graph_privacy_showcase_d.Common.Text.{Text, codes, text_eq, decimal, u64_bound}
use graph_privacy_showcase_d.Field.{
  FieldOps, modulus, fr_from_u64, fr_to_hex, nullifier, note_commitment, owner_from_private_key,
}
use graph_privacy_showcase_d.Field.Codec.{FieldLaws}
use graph_privacy_showcase_d.Records.{
  DisclosedRecord, AccountingClass, disclosed, burn_output_zero, ManifestEntry,
}
use graph_privacy_showcase_d.Fixtures.{
  asset_id, issuer_pk, investor_a_pk, investor_b_pk, fixture_created_at, Actor, new_actor, Leaf,
  leaf_commitment, leaves,
}
use graph_privacy_showcase_d.Fixtures.Generate.{
  spend, actor_for, file_name, record_of, file_of, pushed, entry_of, account_for,
}

abbrev pub IsU64 : ℕ → Type 0
IsU64 n = n < u64_bound

module _ (F : FieldOps) (L : FieldLaws F) where
  open F use {Fr, hash, hex_encode, from_str}

  pub small : (v : ℕ) → v % u64_bound < modulus
  small v = omega arith

  -- The element of a number of 64 bits.
  unfoldable pub element : ℕ → Fr
  element v = (L.from_decimal (v % u64_bound) (small v)).0

  pub fr_from_u64_ok : (v : ℕ) → IsU64 v → fr_from_u64 F v ≡ ok (element v)
  unfolding fr_from_u64 element
  fr_from_u64_ok v h =
      let same : v % u64_bound ≡ v = omega arith in
      let (f, parsed, _) = L.from_decimal (v % u64_bound) (small v) in
      rw (sym (ap (λ k. from_str (decimal k)) same) ∙ parsed) refl

  abbrev pub actor : ℕ → Actor F
  actor pk = record { private_key = element pk; owner = owner_from_private_key F (element pk) }

  pub new_actor_ok : (pk : ℕ) → IsU64 pk → new_actor F pk ≡ ok (actor pk)
  unfolding new_actor
  new_actor_ok pk h = rw (fr_from_u64_ok pk h) refl

  abbrev pub IsU64Leaf : Leaf F → Type 0
  IsU64Leaf leaf = IsU64 leaf.value × IsU64 leaf.salt

  abbrev pub spent : Leaf F → Actor F → Text
  spent leaf a = fr_to_hex F (hash (element leaf.salt ∷ a.private_key ∷ []))

  pub spend_ok : (leaf : Leaf F) (a : Actor F) → IsU64Leaf leaf → spend F leaf a ≡ ok (spent leaf a)
  unfolding spend nullifier
  spend_ok leaf a h = rw (fr_from_u64_ok leaf.salt h.1) refl

  abbrev pub issuer : Actor F
  issuer = actor issuer_pk

  abbrev pub investor_a : Actor F
  investor_a = actor investor_a_pk

  abbrev pub investor_b : Actor F
  investor_b = actor investor_b_pk

  abbrev pub notes : List (Leaf F)
  notes = leaves F issuer investor_a investor_b

  -- The actor of a label that the notes use.
  abbrev pub holder : Text → Actor F
  holder label =
      if text_eq label (codes "issuer")
      then issuer
      else if text_eq label (codes "investor-a")
      then investor_a
      else investor_b

  abbrev pub HasHolder : Leaf F → Type 0
  HasHolder leaf =
      actor_for F issuer investor_a investor_b leaf.owner_label ≡ ok (holder leaf.owner_label)

  module _ (maturity_date : ℕ) where
    abbrev pub note_of : Leaf F → Fr
    note_of leaf = hash (
        element leaf.value
        ∷ element leaf.salt
        ∷ leaf.owner
        ∷ element asset_id
        ∷ element maturity_date
        ∷ [])

    pub leaf_commitment_ok :
        IsU64 maturity_date
        → (leaf : Leaf F) → IsU64Leaf leaf
        → leaf_commitment F maturity_date leaf ≡ ok (note_of leaf)
    unfolding leaf_commitment note_commitment
    leaf_commitment_ok m leaf h =
        rw
          (
            fr_from_u64_ok leaf.value h.0,
            fr_from_u64_ok leaf.salt h.1,
            fr_from_u64_ok asset_id (omega arith),
            fr_from_u64_ok maturity_date m,
          )
          refl

    abbrev pub commitments : List Fr
    commitments = map note_of notes

    abbrev pub record_for : Leaf F → DisclosedRecord
    record_for leaf = record {
      commitment = fr_to_hex F (note_of leaf);
      nullifier = spent leaf (holder leaf.owner_label);
      value = leaf.value;
      salt = leaf.salt;
      owner = fr_to_hex F leaf.owner;
      asset_id = asset_id;
      maturity_date = maturity_date;
      created_at = fixture_created_at;
    }

    abbrev pub filed_as : Leaf F → AccountingClass → Option (Text × DisclosedRecord)
    filed_as leaf disclosed = some (file_name F leaf, record_for leaf)
    filed_as leaf burn_output_zero = none

    abbrev pub entry_for : Leaf F → ManifestEntry
    entry_for leaf =
        entry_of F leaf (fr_to_hex F (note_of leaf)) (file_of (filed_as leaf leaf.class))

    abbrev pub records_for : List (Leaf F) → List (Text × DisclosedRecord)
    records_for [] = []
    records_for (leaf ∷ rest) = pushed (filed_as leaf leaf.class) ++ records_for rest

    record_of_ok :
        (leaf : Leaf F) (c : AccountingClass)
        → IsU64Leaf leaf
        → record_of F maturity_date leaf (fr_to_hex F (note_of leaf)) (holder leaf.owner_label) c
          ≡ ok (filed_as leaf c)
    unfolding record_of nullifier
    record_of_ok leaf disclosed h = rw (fr_from_u64_ok leaf.salt h.1) refl
    record_of_ok leaf burn_output_zero h = refl

    pub account_for_ok :
        IsU64 maturity_date
        → (ls : List (Leaf F)) → All IsU64Leaf ls
        → All HasHolder ls
        → account_for F issuer investor_a investor_b maturity_date ls
          ≡ ok (map entry_for ls, records_for ls)
    unfolding account_for
    account_for_ok m [] h k = refl
    account_for_ok m (leaf ∷ rest) (p, h) (q, k) =
        rw
          (
            leaf_commitment_ok m leaf p,
            q,
            record_of_ok leaf leaf.class p,
            account_for_ok m rest h k,
          )
          refl
