-- ===== src/Common/BTreeMap/Sorted.antt =====
-- Maps with texts as keys: the keys stand in strictly ascending order, so that the map's length is the
-- number of keys that it holds.
use graph_privacy_showcase_d.Common.Tests.{if◌then◌else◌, is_some}
use graph_privacy_showcase_d.Common.Lists.{length, All}
use graph_privacy_showcase_d.Common.BTreeMap.{
  BTreeMap, text_ord, text_cmp, text_eq_of_cmp, get, insert,
}
use Prim.Native.Nat.{ℕ, suc, Ordering}
use mathlib.Core.Path.{◌≡◌, refl}
use mathlib.Core.Option.{none}
use mathlib.Core.List.{List, [], ◌∷◌}
use native.Mathlib.Omega.{arith}

pub text_cmp_gt : (s t : List ℕ) → text_cmp s t ≡ Ordering.gt → text_cmp t s ≡ Ordering.lt
text_cmp_gt [] [] h = absurd (cc)
text_cmp_gt [] (d ∷ t) h = absurd (cc)
text_cmp_gt (c ∷ s) [] h = refl
text_cmp_gt (c ∷ s) (d ∷ t) h = ground (arith, text_cmp_gt s t)

pub text_cmp_trans :
    (s t u : List ℕ)
    → text_cmp s t ≡ Ordering.lt
    → text_cmp t u ≡ Ordering.lt
    → text_cmp s u ≡ Ordering.lt
text_cmp_trans [] [] u h k = absurd (cc)
text_cmp_trans [] (d ∷ t) [] h k = absurd (cc)
text_cmp_trans [] (d ∷ t) (e ∷ u) h k = refl
text_cmp_trans (c ∷ s) [] u h k = absurd (cc)
text_cmp_trans (c ∷ s) (d ∷ t) [] h k = absurd (cc)
text_cmp_trans (c ∷ s) (d ∷ t) (e ∷ u) h k = ground (arith, text_cmp_trans s t u)

by_order {κ} :
    {P : Type κ} (o : Ordering)
    → (o ≡ Ordering.lt → P)
    → (o ≡ Ordering.eq → P)
    → (o ≡ Ordering.gt → P)
    → P
by_order Ordering.lt f g h = f refl
by_order Ordering.eq f g h = g refl
by_order Ordering.gt f g h = h refl

module _ {ℓ} {V : Type ℓ} where
  abbrev pub Above : List ℕ → BTreeMap (List ℕ) V → Type 0
  Above k m = All (λ e. text_cmp k e.0 ≡ Ordering.lt) m

  abbrev pub Sorted : BTreeMap (List ℕ) V → Type 0
  Sorted [] = Unit
  Sorted (e ∷ m) = Above e.0 m × Sorted m

  Above-weaken :
      (j k : List ℕ) (m : BTreeMap (List ℕ) V) → text_cmp j k ≡ Ordering.lt → Above k m → Above j m
  Above-weaken j k [] h a = tt
  Above-weaken j k (e ∷ m) h (p, a) = (text_cmp_trans j k e.0 h p, Above-weaken j k m h a)

  Above-insert :
      (j k : List ℕ) (v : V) (m : BTreeMap (List ℕ) V)
      → text_cmp j k ≡ Ordering.lt
      → Above j m
      → Above j (insert k v m)
  unfolding insert
  Above-insert j k v [] h a = (h, tt)
  Above-insert j k v ((i, w) ∷ m) h (p, a) = ground (arith, Above-insert j k v m h a)

  pub insert-Sorted :
      (k : List ℕ) (v : V) (m : BTreeMap (List ℕ) V) → Sorted m → Sorted (insert k v m)
  unfolding insert
  insert-Sorted k v [] s = (tt, tt)
  insert-Sorted k v ((i, w) ∷ m) (a, s) =
      by_order (text_cmp k i) (λ e. rw (e, insert) ((e, Above-weaken k i m e a), (a, s)))
        (λ e. rw (e, insert, text_eq_of_cmp k i e) (a, s))
        (λ e. rw (e, insert) (Above-insert i k v m (text_cmp_gt k i e) a, insert-Sorted k v m s))

  get-Above-none : (k : List ℕ) (m : BTreeMap (List ℕ) V) → Above k m → get k m ≡ none
  unfolding get
  get-Above-none k [] a = refl
  get-Above-none k ((i, w) ∷ m) (p, a) = ground (arith, get-Above-none k m a)

  -- A key that the map holds is replaced; another one is added.
  pub length-insert :
      (k : List ℕ) (v : V) (m : BTreeMap (List ℕ) V)
      → Sorted m
      → length (insert k v m) ≡ (if is_some (get k m) then length m else suc (length m))
  unfolding get insert
  length-insert k v [] s = refl
  length-insert k v ((i, w) ∷ m) (a, s) =
      ground (arith, length-insert k v m s, get-Above-none k m, Above-weaken k i m)
