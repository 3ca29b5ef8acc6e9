-- ===== src/Anchors/Ordered.antt =====
-- `ordered_commitments` and `leaf_counts_after_each_call` of anchors.rs.
use graph_privacy_showcase_d.Common.{
  ℕ, Ordering, none, some, List, [], ◌∷◌, is_some, ltb, Result, ok, err, ◌>>=◌, ◌>>◌, bail_if,
  context, leaf_index_not_a_number, leaf_count_not_a_number, two_commitments_claim,
  served_not_contiguous, not_monotonic,
}
use graph_privacy_showcase_d.Common.Text.{parse_u64}
use graph_privacy_showcase_d.Common.BTreeMap.{
  BTreeMap, nat_ord, text_cmp, get, insert, keys, values, first_gap,
}
use graph_privacy_showcase_d.Anchors.{AnchorSet, CommitmentEntity, LifecycleCallEntity}

-- The first loop: every commitment under its leaf index.
unfoldable pub index_commitments :
    List CommitmentEntity → BTreeMap ℕ CommitmentEntity → Result (BTreeMap ℕ CommitmentEntity)
index_commitments [] by_index = ok by_index
index_commitments (c ∷ rest) by_index = do
  idx ← context (leaf_index_not_a_number c.leaf_index) (parse_u64 c.leaf_index)
  bail_if (is_some (get idx by_index)) (two_commitments_claim idx)
  index_commitments rest (insert idx c by_index)

-- The second loop: the keys are their positions.
unfoldable pub check_contiguous : BTreeMap ℕ CommitmentEntity → Result (Unit {0})
check_contiguous by_index = elim (first_gap 0 (keys by_index)) [
  | none ↦ ok tt
  | some (position, idx) ↦ err (served_not_contiguous position idx)
]

unfoldable pub ordered_commitments : AnchorSet → Result (List CommitmentEntity)
ordered_commitments set = do
  by_index ← index_commitments set.commitments []
  check_contiguous by_index
  ok (values by_index)

-- `sort_by(|a, b| a.id.cmp(&b.id))`: a stable sort.
unfoldable pub insert_by_id :
    LifecycleCallEntity → List LifecycleCallEntity → List LifecycleCallEntity
insert_by_id call [] = call ∷ []
insert_by_id call (c ∷ calls) = elim (text_cmp call.id c.id) [
  | Ordering.gt ↦ c ∷ insert_by_id call calls
  | _ ↦ call ∷ c ∷ calls
]

unfoldable pub sort_by_id : List LifecycleCallEntity → List LifecycleCallEntity
unfolding insert_by_id
sort_by_id [] = []
sort_by_id (call ∷ calls) = insert_by_id call (sort_by_id calls)

unfoldable pub counts_from : ℕ → List LifecycleCallEntity → Result (List ℕ)
counts_from previous [] = ok []
counts_from previous (call ∷ calls) = do
  after ← context (leaf_count_not_a_number call.leaf_count_after) (parse_u64 call.leaf_count_after)
  bail_if (ltb after previous) (not_monotonic call.id after previous)
  counts ← counts_from after calls
  ok (after ∷ counts)

unfoldable pub leaf_counts_after_each_call : AnchorSet → Result (List ℕ)
leaf_counts_after_each_call set = counts_from 0 (sort_by_id set.lifecycle_calls)
