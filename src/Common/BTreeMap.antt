-- ===== src/Common/BTreeMap.antt =====
-- `std::collections::BTreeMap`: the entries in the order of their keys.
pub mod Order
pub mod Sorted
use Prim.Native.Nat.{ℕ, zero, suc, ◌+◌, ◌<◌, compare, Ordering}
use mathlib.Core.Path.{◌≡◌, refl, ap, sym, ◌∙◌}
use mathlib.Core.Logic.{◌≢◌, ◌↔◌}
use mathlib.Core.Bool.{Bool, true, false}
use mathlib.Core.Option.{Option, none, some}
use mathlib.Core.List.{List, [], ◌∷◌, ◌++◌, map, Perm}
use mathlib.Core.List.Perm
use native.Mathlib.Omega.{arith}
use graph_privacy_showcase_d.Common.Tests.{◌==◌, if◌then◌else◌}
use graph_privacy_showcase_d.Common.Lists.{length, get_elem?}

-- `Ord`: the comparison of keys, with what the map needs of it.
pub record Ord {ℓ} (K : Type ℓ) : Type ℓ where
  pub cmp : K → K → Ordering
  pub eq_of_cmp : (a b : K) → cmp a b ≡ Ordering.eq → a ≡ b
  pub cmp_self : (a : K) → cmp a a ≡ Ordering.eq

pub nat_eq_of_compare : (a b : ℕ) → compare a b ≡ Ordering.eq → a ≡ b
nat_eq_of_compare a b h = ground arith

pub nat_compare_self : (a : ℕ) → compare a a ≡ Ordering.eq
nat_compare_self a = ground arith

instance abbrev pub nat_ord : Ord ℕ
nat_ord = record { cmp = compare; eq_of_cmp = nat_eq_of_compare; cmp_self = nat_compare_self }

-- `Ord for str`: the lexicographic order.
abbrev pub text_cmp : List ℕ → List ℕ → Ordering
text_cmp [] [] = Ordering.eq
text_cmp [] (d ∷ t) = Ordering.lt
text_cmp (c ∷ s) [] = Ordering.gt
text_cmp (c ∷ s) (d ∷ t) = elim (compare c d) [ Ordering.eq ↦ text_cmp s t | o ↦ o ]

pub text_eq_of_cmp : (s t : List ℕ) → text_cmp s t ≡ Ordering.eq → s ≡ t
text_eq_of_cmp [] [] h = refl
text_eq_of_cmp [] (d ∷ t) h = cc
text_eq_of_cmp (c ∷ s) [] h = cc
text_eq_of_cmp (c ∷ s) (d ∷ t) h = ground (arith, text_eq_of_cmp s t)

pub text_cmp_self : (s : List ℕ) → text_cmp s s ≡ Ordering.eq
text_cmp_self [] = refl
text_cmp_self (c ∷ s) = ground (arith, text_cmp_self s)

instance abbrev pub text_ord : Ord (List ℕ)
text_ord = record { cmp = text_cmp; eq_of_cmp = text_eq_of_cmp; cmp_self = text_cmp_self }

abbrev pub is_eq : Ordering → Bool
is_eq Ordering.eq = true
is_eq _ = false

abbrev pub BTreeMap {ℓ κ} : Type ℓ → Type κ → Type (ℓ ⊔ κ)
BTreeMap K V = List (K × V)

module _ {ℓ κ} {K : Type ℓ} {V : Type κ} where
  abbrev pub keys : BTreeMap K V → List K
  keys m = map (λ e. e.0) m

  -- `into_values`
  abbrev pub values : BTreeMap K V → List V
  values m = map (λ e. e.1) m

module _ {ℓ} {K : Type ℓ} ⦃o : Ord K⦄ where
  is_eq→≡ : (a b : K) → is_eq (o.cmp a b) ≡ true → a ≡ b
  is_eq→≡ a b h = o.eq_of_cmp a b (ground arith)

  pub key_eq_iff : (a b : K) → (is_eq (o.cmp a b) ≡ true) ↔ (a ≡ b)
  key_eq_iff a b = (is_eq→≡ a b, λ e. rw (e, o.cmp_self b))

module _ {ℓ κ} {K : Type ℓ} {V : Type κ} ⦃o : Ord K⦄ where
  unfoldable pub get : K → BTreeMap K V → Option V
  get k [] = none
  get k ((j, v) ∷ m) = if is_eq (o.cmp k j) then some v else get k m

  unfoldable pub contains_key : K → BTreeMap K V → Bool
  contains_key k [] = false
  contains_key k ((j, v) ∷ m) = if is_eq (o.cmp k j) then true else contains_key k m

  -- The new map; the old value that Rust's `insert` returns is `get k m`.
  unfoldable pub insert : K → V → BTreeMap K V → BTreeMap K V
  insert k v [] = (k, v) ∷ []
  insert k v ((j, w) ∷ m) = elim (o.cmp k j) [
    | Ordering.lt ↦ (k, v) ∷ (j, w) ∷ m
    | Ordering.eq ↦ (k, v) ∷ m
    | Ordering.gt ↦ (j, w) ∷ insert k v m
  ]

  pub get-insert :
      (k j : K) (v : V) (m : BTreeMap K V)
      → get j (insert k v m) ≡ (if is_eq (o.cmp j k) then some v else get j m)
  unfolding get insert
  get-insert k j v [] = refl
  get-insert k j v ((i, w) ∷ m) =
      ground (arith, get-insert k j v m, key_eq_iff k i, key_eq_iff j i, key_eq_iff j k)

  -- A key that was absent adds one entry.
  pub insert-perm :
      (k : K) (v : V) (m : BTreeMap K V) → get k m ≡ none → Perm (insert k v m) ((k, v) ∷ m)
  unfolding get insert
  insert-perm k v [] h = Perm.refl _
  insert-perm k v ((j, w) ∷ m) h = by_order (o.cmp k j) refl (insert-perm k v m)
    where
      by_order :
          (c : Ordering)
          → o.cmp k j ≡ c
          → (get k m ≡ none → Perm (insert k v m) ((k, v) ∷ m))
          → Perm (insert k v ((j, w) ∷ m)) ((k, v) ∷ (j, w) ∷ m)
      by_order Ordering.lt e ih = rw (e, insert) (Perm.refl _)
      by_order Ordering.eq e ih = ground arith
      by_order Ordering.gt e ih =
          rw (e, insert) (Perm.trans (Perm.cons _ (ih (ground arith))) (Perm.swap _ _ _))

-- `for (position, key) in map.keys().enumerate()`: the first key that is not at its own position.
unfoldable pub first_gap : ℕ → List ℕ → Option (ℕ × ℕ)
first_gap position [] = none
first_gap position (k ∷ ks) =
    if k == position then first_gap (position + 1) ks else some (position, k)

-- The numbers `start`, `start + 1`, … of a given count.
abbrev pub range_from : ℕ → ℕ → List ℕ
range_from start zero = []
range_from start (suc n) = start ∷ range_from (start + 1) n

pub first_gap-eq-none :
    (position : ℕ) (ks : List ℕ)
    → first_gap position ks ≡ none
    → ks ≡ range_from position (length ks)
unfolding first_gap
first_gap-eq-none position [] h = refl
first_gap-eq-none position (k ∷ ks) h = ground (arith, first_gap-eq-none (position + 1) ks)

pub first_gap-range : (position n : ℕ) → first_gap position (range_from position n) ≡ none
unfolding first_gap
first_gap-range position zero = refl
first_gap-range position (suc n) = ground (arith, first_gap-range (position + 1) n)

-- In a map whose keys have no gap the value at a position is the one that its key has.
pub get-range {ℓ} :
    {V : Type ℓ} (m : BTreeMap ℕ V) (start n i : ℕ)
    → keys m ≡ range_from start n
    → i < n
    → get (start + i) m ≡ get_elem? (values m) i
unfolding get
get-range m start zero i h lt = absurd (omega arith)
get-range [] start (suc n) i h lt = cc
get-range ((k, v) ∷ m) start (suc n) zero h lt = ground arith
get-range ((k, v) ∷ m) start (suc n) (suc i) h lt =
    ground (arith, get-range m (start + 1) n i (cc) (omega arith))
