-- ===== src/Anchors/Arrangement.antt =====
-- The result of `ordered_commitments` does not depend on the order in which commitments come (anchors.rs).
use graph_privacy_showcase_d.Common.{
  ℕ, ◌+◌, ◌<◌, none, some, List, [], ◌∷◌, ◌++◌, ◌≡◌, ◌≢◌, refl, arith, Result, ok, ◌>>◌, sym, ap,
  ◌∙◌, All, Option-cases, inl, inr, length, >>=-eq-ok, All-append, append_assoc, append-nil,
}
use graph_privacy_showcase_d.Common.Text.{parse_u64}
use graph_privacy_showcase_d.Common.BTreeMap.{
  BTreeMap, nat_ord, get, insert, keys, values, first_gap, get-insert, range_from, first_gap-range,
}
use graph_privacy_showcase_d.Common.BTreeMap.Order.{insert_comm, insert_last, get_last-none}
use graph_privacy_showcase_d.Anchors.{AnchorSet, CommitmentEntity}
use graph_privacy_showcase_d.Anchors.Ordered.{
  index_commitments, check_contiguous, ordered_commitments,
}
use mathlib.Core.List.{Perm, Permᴰ}
use mathlib.Core.Logic.{∥∥₁_elim}
use graph_privacy_showcase_d.Anchors.Indexed.{AreIndexed}

index_step :
    (c : CommitmentEntity) (cs : List CommitmentEntity) (m r : BTreeMap ℕ CommitmentEntity)
    → index_commitments (c ∷ cs) m ≡ ok r
    → (idx : ℕ) × (parse_u64 c.leaf_index ≡ some idx)
      × (get idx m ≡ none)
      × (index_commitments cs (insert idx c m) ≡ ok r)
unfolding index_commitments
index_step c cs m r e = elim (Option-cases (parse_u64 c.leaf_index)) [
  | inl bad ↦ absurd (ground arith)
  | inr (idx, parsed) ↦ (idx, parsed, ground arith, ground arith)
]

index_fire :
    (c : CommitmentEntity) (idx : ℕ) (cs : List CommitmentEntity)
    (m r : BTreeMap ℕ CommitmentEntity)
    → parse_u64 c.leaf_index ≡ some idx
    → get idx m ≡ none
    → index_commitments cs (insert idx c m) ≡ ok r
    → index_commitments (c ∷ cs) m ≡ ok r
unfolding index_commitments
index_fire c idx cs m r parsed fresh e = rw (parsed, fresh) e

fresh_of_insert :
    (i j : ℕ) (a : CommitmentEntity) (m : BTreeMap ℕ CommitmentEntity)
    → get j (insert i a m) ≡ none
    → (i ≢ j) × (get j m ≡ none)
fresh_of_insert i j a m h = ground (arith, get-insert i j a m)

insert_fresh :
    (i j : ℕ) (b : CommitmentEntity) (m : BTreeMap ℕ CommitmentEntity)
    → i ≢ j
    → get i m ≡ none
    → get i (insert j b m) ≡ none
insert_fresh i j b m h fresh = ground (arith, get-insert j i b m)

index_swap :
    (a b : CommitmentEntity) (cs : List CommitmentEntity) (m r : BTreeMap ℕ CommitmentEntity)
    → index_commitments (a ∷ b ∷ cs) m ≡ ok r
    → index_commitments (b ∷ a ∷ cs) m ≡ ok r
index_swap a b cs m r e =
    let (i, parsed_a, fresh_a, e1) = index_step a (b ∷ cs) m r e in
    let (j, parsed_b, fresh_b, e2) = index_step b cs (insert i a m) r e1 in
    let (differ, fresh) = fresh_of_insert i j a m fresh_b in
    index_fire b j (a ∷ cs) m r parsed_b fresh (
      index_fire a i cs (insert j b m) r parsed_a (insert_fresh i j b m differ fresh_a)
        (rw (insert_comm i j a b m differ) e2))

index_perm :
    (cs ds : List CommitmentEntity)
    → Permᴰ cs ds
    → (m r : BTreeMap ℕ CommitmentEntity) → index_commitments cs m ≡ ok r
    → index_commitments ds m ≡ ok r
index_perm cs ds Permᴰ.nil m r e = e
index_perm cs ds (Permᴰ.cons {l₁ = l₁} {l₂ = l₂} p q) m r e = rw (← p) (
    let (i, parsed, fresh, e1) = index_step _ l₁ m r e in
    index_fire _ i l₂ m r parsed fresh (index_perm l₁ l₂ q _ r e1))
index_perm cs ds (Permᴰ.swap {a = a} {b = b} {l = l} p q) m r e =
    rw (← p, ← q) (index_swap a b l m r e)
index_perm cs ds (Permᴰ.trans {l₂ = es} p q) m r e =
    index_perm es ds q m r (index_perm cs es p m r e)

Result_set : IsSet (Result (List CommitmentEntity))
Result_set = hlevel

same_map :
    (set set' : AnchorSet) (cs : List CommitmentEntity)
    → Permᴰ set.commitments set'.commitments
    → ordered_commitments set ≡ ok cs
    → ordered_commitments set' ≡ ok cs
unfolding ordered_commitments
same_map set set' cs q e =
    let (m, indexed, e1) =
      >>=-eq-ok (index_commitments set.commitments []) (λ m. check_contiguous m >> ok (values m))
        e in
    rw (index_perm set.commitments set'.commitments q [] m indexed) e1

numbered : ℕ → List CommitmentEntity → BTreeMap ℕ CommitmentEntity
numbered start [] = []
numbered start (c ∷ cs) = (start, c) ∷ numbered (start + 1) cs

values-numbered : (start : ℕ) (cs : List CommitmentEntity) → values (numbered start cs) ≡ cs
unfolding numbered
values-numbered start [] = refl
values-numbered start (c ∷ cs) = ap (λ r. c ∷ r) (values-numbered (start + 1) cs)

keys-numbered :
    (start : ℕ) (cs : List CommitmentEntity)
    → keys (numbered start cs) ≡ range_from start (length cs)
unfolding numbered
keys-numbered start [] = refl
keys-numbered start (c ∷ cs) = ap (λ r. start ∷ r) (keys-numbered (start + 1) cs)

below_suc :
    (start : ℕ) (m : BTreeMap ℕ CommitmentEntity)
    → All (λ e. e.0 < start) m
    → All (λ e. e.0 < start + 1) m
below_suc start [] h = tt
below_suc start (e ∷ m) (p, h) = (omega arith, below_suc start m h)

-- If commitments are returned for one arrangement of the served ones, the same are returned for
-- every other arrangement.
pub ordered_commitments-perm :
    (set set' : AnchorSet) (cs : List CommitmentEntity)
    → Perm set.commitments set'.commitments
    → ordered_commitments set ≡ ok cs
    → ordered_commitments set' ≡ ok cs
ordered_commitments-perm set set' cs p e =
    ∥∥₁_elim p (Result_set _ _) (λ q. same_map set set' cs q e)

-- Commitments that arrive in the order of their indices are returned as they came.
index_in_order :
    (start : ℕ) (cs : List CommitmentEntity) (m : BTreeMap ℕ CommitmentEntity)
    → AreIndexed start cs
    → All (λ e. e.0 < start) m
    → index_commitments cs m ≡ ok (m ++ numbered start cs)
unfolding numbered
index_in_order start [] m h k = unfold index_commitments numbered in ap ok (sym (append-nil m))
index_in_order start (c ∷ cs) m (p, h) k =
    index_fire c start cs m (m ++ (start, c) ∷ numbered (start + 1) cs) p (get_last-none start m k)
      (rw (insert_last start c m k) (
        index_in_order (start + 1) cs (m ++ (start, c) ∷ []) h
          (All-append _ m ((start, c) ∷ []) (below_suc start m k) (omega arith, tt))
        ∙ ap ok (append_assoc m ((start, c) ∷ []) (numbered (start + 1) cs))))

numbered_contiguous : (cs : List CommitmentEntity) → check_contiguous (numbered 0 cs) ≡ ok tt
unfolding check_contiguous
numbered_contiguous cs =
    let gap : first_gap 0 (keys (numbered 0 cs)) ≡ none =
      rw (keys-numbered 0 cs) (first_gap-range 0 (length cs)) in
    rw (gap, check_contiguous)

in_order :
    (set : AnchorSet) (cs : List CommitmentEntity)
    → AreIndexed 0 cs
    → ordered_commitments (record set { commitments = cs }) ≡ ok cs
unfolding ordered_commitments
in_order set cs h = rw (index_in_order 0 cs [] h tt, numbered_contiguous cs, values-numbered 0 cs)

-- Commitments whose leaf indices are 0, 1, … are returned in this order, whatever the order in which
-- they were served.
pub ordered_commitments_complete :
    (set : AnchorSet) (cs : List CommitmentEntity)
    → Perm cs set.commitments
    → AreIndexed 0 cs
    → ordered_commitments set ≡ ok cs
ordered_commitments_complete set cs p h =
    ordered_commitments-perm (record set { commitments = cs }) set cs p (in_order set cs h)
