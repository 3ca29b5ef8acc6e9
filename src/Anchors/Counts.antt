-- ===== src/Anchors/Counts.antt =====
-- The leaf counts that `leaf_counts_after_each_call` returns never fall.
use graph_privacy_showcase_d.Common.{ℕ, ◌≤◌, Ordering, some, List, [], ◌∷◌, ◌≡◌, refl, arith, ok}
use graph_privacy_showcase_d.Common.Text.{parse_u64}
use graph_privacy_showcase_d.Common.BTreeMap.{text_cmp}
use graph_privacy_showcase_d.Anchors.{AnchorSet, LifecycleCallEntity}
use graph_privacy_showcase_d.Anchors.Ordered.{
  insert_by_id, sort_by_id, counts_from, leaf_counts_after_each_call,
}
use mathlib.Core.List.{Perm}
use mathlib.Core.List.Perm

-- Each count is at least the one before it.
abbrev pub NeverFalls : ℕ → List ℕ → Type 0
NeverFalls previous [] = Unit
NeverFalls previous (after ∷ counts) = (previous ≤ after) × NeverFalls after counts

-- The counts are those that the calls state, in their order.
abbrev pub AreStated : List LifecycleCallEntity → List ℕ → Type 0
AreStated [] [] = Unit
AreStated [] (n ∷ counts) = ⊥
AreStated (call ∷ calls) [] = ⊥
AreStated (call ∷ calls) (n ∷ counts) =
    (parse_u64 call.leaf_count_after ≡ some n) × AreStated calls counts

insert_by_id-perm :
    (call : LifecycleCallEntity) (calls : List LifecycleCallEntity)
    → Perm (insert_by_id call calls) (call ∷ calls)
unfolding insert_by_id
insert_by_id-perm call [] = Perm.refl _
insert_by_id-perm call (c ∷ calls) =
    by_order (text_cmp call.id c.id) refl (insert_by_id-perm call calls)
  where
    by_order :
        (o : Ordering)
        → text_cmp call.id c.id ≡ o
        → Perm (insert_by_id call calls) (call ∷ calls)
        → Perm (insert_by_id call (c ∷ calls)) (call ∷ c ∷ calls)
    by_order Ordering.lt e ih = rw (e, insert_by_id) (Perm.refl _)
    by_order Ordering.eq e ih = rw (e, insert_by_id) (Perm.refl _)
    by_order Ordering.gt e ih = rw (e, insert_by_id) (Perm.trans (Perm.cons _ ih) (Perm.swap _ _ _))

pub sort_by_id-perm : (calls : List LifecycleCallEntity) → Perm (sort_by_id calls) calls
unfolding sort_by_id
sort_by_id-perm [] = Perm.refl _
sort_by_id-perm (call ∷ calls) =
    Perm.trans (insert_by_id-perm call (sort_by_id calls)) (Perm.cons _ (sort_by_id-perm calls))

counts_from_iff :
    (previous : ℕ) (calls : List LifecycleCallEntity) (counts : List ℕ)
    → counts_from previous calls ≡ ok counts
    → AreStated calls counts × NeverFalls previous counts
unfolding counts_from
counts_from_iff previous [] [] e = (tt, tt)
counts_from_iff previous [] (n ∷ counts) e = absurd (cc)
counts_from_iff previous (call ∷ calls) [] e = absurd (ground arith)
counts_from_iff previous (call ∷ calls) (n ∷ counts) e =
    let (stated, rises) = counts_from_iff n calls counts (ground arith) in
    ((ground arith, stated), (ground arith, rises))

-- On success, the counts are those that the served calls state, in a rearrangement of these (the
-- one by call id), and none is below the one before it.
pub leaf_counts_never_fall :
    (set : AnchorSet) (counts : List ℕ)
    → leaf_counts_after_each_call set ≡ ok counts
    → Perm (sort_by_id set.lifecycle_calls) set.lifecycle_calls
      × AreStated (sort_by_id set.lifecycle_calls) counts
      × NeverFalls 0 counts
unfolding leaf_counts_after_each_call
leaf_counts_never_fall set counts e =
    let (stated, rises) = counts_from_iff 0 (sort_by_id set.lifecycle_calls) counts e in
    (sort_by_id-perm set.lifecycle_calls, stated, rises)
