-- ===== src/Anchors/Indexed.antt =====
-- `ordered_commitments` puts every served commitment at the position that its leaf index states (anchors.rs).
use graph_privacy_showcase_d.Common.{
  ℕ, zero, suc, ◌+◌, some, List, [], ◌∷◌, ◌++◌, ◌≡◌, arith, ok, ◌>>◌, sym, ap, ◌∙◌, All,
  Option-cases, inl, inr, length, ok-injective, >>=-eq-ok, append-nil,
}
use graph_privacy_showcase_d.Common.Text.{parse_u64}
use graph_privacy_showcase_d.Common.BTreeMap.{
  BTreeMap, nat_ord, get, insert, keys, values, insert-perm, first_gap-eq-none, range_from,
}
use graph_privacy_showcase_d.Anchors.{AnchorSet, CommitmentEntity}
use graph_privacy_showcase_d.Anchors.Ordered.{
  index_commitments, check_contiguous, ordered_commitments,
}
use mathlib.Core.List.{Perm, perm_middle}
use mathlib.Core.List.Perm

-- The commitments have the leaf indices `start`, `start + 1`, … in their order.
abbrev pub AreIndexed : ℕ → List CommitmentEntity → Type 0
AreIndexed start [] = Unit
AreIndexed start (c ∷ cs) = (parse_u64 c.leaf_index ≡ some start) × AreIndexed (start + 1) cs

-- Every commitment of the map is under the index that it states.
abbrev AreKeyed : BTreeMap ℕ CommitmentEntity → Type 0
AreKeyed m = All (λ e. parse_u64 e.1.leaf_index ≡ some e.0) m

insert-AreKeyed :
    (k : ℕ) (c : CommitmentEntity) (m : BTreeMap ℕ CommitmentEntity)
    → parse_u64 c.leaf_index ≡ some k
    → AreKeyed m
    → AreKeyed (insert k c m)
unfolding insert
insert-AreKeyed k c [] p h = (p, tt)
insert-AreKeyed k c ((j, d) ∷ m) p (q, h) = ground (arith, insert-AreKeyed k c m p h)

index_sound :
    (cs : List CommitmentEntity) (m r : BTreeMap ℕ CommitmentEntity)
    → index_commitments cs m ≡ ok r
    → AreKeyed m
    → AreKeyed r × Perm (values r) (cs ++ values m)
unfolding index_commitments
index_sound [] m r e h =
    let same = ok-injective m r e in (rw (sym same) h, rw (sym same) (Perm.refl _))
index_sound (c ∷ cs) m r e h = elim (Option-cases (parse_u64 c.leaf_index)) [
  | inl bad ↦ absurd (ground arith)
  | inr (idx, parsed) ↦ elim (Option-cases (get idx m)) [
    | inr (d, taken) ↦ absurd (ground arith)
    | inl fresh ↦
        let (keyed, perm) =
          index_sound cs (insert idx c m) r (ground arith) (insert-AreKeyed idx c m parsed h) in
        (
          keyed,
          Perm.trans perm (
              Perm.trans (Perm.append_left cs (Perm.map (λ e. e.1) (insert-perm idx c m fresh)))
                (perm_middle cs (values m))),
        )
  ]
]

AreKeyed-AreIndexed :
    (m : BTreeMap ℕ CommitmentEntity) (start n : ℕ)
    → AreKeyed m
    → keys m ≡ range_from start n
    → AreIndexed start (values m)
AreKeyed-AreIndexed [] start n h e = tt
AreKeyed-AreIndexed ((k, c) ∷ m) start zero h e = absurd (cc)
AreKeyed-AreIndexed ((k, c) ∷ m) start (suc n) (p, h) e =
    let same : k ≡ start = cc in (p ∙ ap some same, AreKeyed-AreIndexed m (start + 1) n h (cc))

contiguous-eq-ok :
    (m : BTreeMap ℕ CommitmentEntity) {u : Unit {0}}
    → check_contiguous m ≡ ok u
    → keys m ≡ range_from 0 (length (keys m))
unfolding check_contiguous
contiguous-eq-ok m e = first_gap-eq-none 0 (keys m) (ground arith)

-- On success, what is returned is a rearrangement of the served commitments, in which every one
-- stands at the position that its leaf index states.
pub ordered_commitments_sound :
    (set : AnchorSet) (cs : List CommitmentEntity)
    → ordered_commitments set ≡ ok cs
    → Perm cs set.commitments × AreIndexed 0 cs
unfolding ordered_commitments
ordered_commitments_sound set cs e =
    let (m, indexed, e1) =
      >>=-eq-ok (index_commitments set.commitments []) (λ m. check_contiguous m >> ok (values m))
        e in
    let (u, checked, e2) = >>=-eq-ok (check_contiguous m) (λ _. ok (values m)) e1 in
    let (keyed, perm) = index_sound set.commitments [] m indexed tt in
    let same = ok-injective (values m) cs e2 in
    (
      rw (← same) (Perm.trans perm (rw append-nil (Perm.refl _))),
      rw (← same) (AreKeyed-AreIndexed m 0 (length (keys m)) keyed (contiguous-eq-ok m checked)),
    )
