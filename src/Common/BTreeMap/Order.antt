-- ===== src/Common/BTreeMap/Order.antt =====
-- Insertions into a map with numbers as keys: their order does not matter, and a largest key stands last.
use graph_privacy_showcase_d.Common.Tests.{is_some}
use graph_privacy_showcase_d.Common.Lists.{All}
use graph_privacy_showcase_d.Common.BTreeMap.{
  BTreeMap, nat_ord, get, insert, contains_key, keys, range_from,
}
use Prim.Native.Nat.{ℕ, zero, suc, ◌+◌, ◌<◌, ◌≤◌}
use mathlib.Core.Path.{◌≡◌, refl, sym}
use mathlib.Core.Logic.{◌≢◌}
use mathlib.Core.Option.{none, some}
use mathlib.Core.List.{[], ◌∷◌, ◌++◌}
use native.Mathlib.Omega.{arith}
use native.Mathlib.Decide.{ℕ_discrete}

module _ {ℓ} {V : Type ℓ} where
  pub insert_comm :
      (a b : ℕ) (v w : V) (m : BTreeMap ℕ V)
      → a ≢ b
      → insert a v (insert b w m) ≡ insert b w (insert a v m)
  unfolding insert
  insert_comm a b v w [] h = ground arith
  insert_comm a b v w ((j, u) ∷ m) h = ground (arith, insert_comm a b v w m h)

  -- A key above all others is put at the end.
  pub insert_last :
      (k : ℕ) (v : V) (m : BTreeMap ℕ V) → All (λ e. e.0 < k) m → insert k v m ≡ m ++ (k, v) ∷ []
  unfolding insert
  insert_last k v [] h = refl
  insert_last k v ((j, u) ∷ m) h = ground (arith, insert_last k v m h.1)

  pub get_last-none : (k : ℕ) (m : BTreeMap ℕ V) → All (λ e. e.0 < k) m → get k m ≡ none
  unfolding get
  get_last-none k [] h = refl
  get_last-none k ((j, u) ∷ m) h = ground (arith, get_last-none k m h.1)

  pub get-append-none : (k : ℕ) (m n : BTreeMap ℕ V) → get k m ≡ none → get k (m ++ n) ≡ get k n
  unfolding get
  get-append-none k [] n h = refl
  get-append-none k ((j, u) ∷ m) n h = ground (arith, get-append-none k m n)

  -- What a map holds at a key has every property that all entries have.
  pub All-get {κ} :
      (P : ℕ → V → Type κ) (m : BTreeMap ℕ V) (k : ℕ) (v : V)
      → All (λ e. P e.0 e.1) m
      → get k m ≡ some v
      → P k v
  All-get P [] k v h e = unfold get in absurd (cc)
  All-get P ((j, w) ∷ m) k v (p, h) e = elim (ℕ_discrete k j) [
    | yes same ↦ let value : w ≡ v = unfold get in ground arith in rw (same, sym value) p
    | no other ↦ All-get P m k v h (unfold get in ground arith)
  ]

  range-le :
      (m : BTreeMap ℕ V) (start n : ℕ) → keys m ≡ range_from start n → All (λ e. start ≤ e.0) m
  range-le [] start n e = tt
  range-le ((k, v) ∷ m) start zero e = absurd (cc)
  range-le ((k, v) ∷ m) start (suc n) e =
      let same : k ≡ start = cc in (omega arith, weaken start m (range-le m (start + 1) n (cc)))
    where
      weaken : (s : ℕ) (m : BTreeMap ℕ V) → All (λ e. s + 1 ≤ e.0) m → All (λ e. s ≤ e.0) m
      weaken s [] h = tt
      weaken s (e ∷ m) (p, h) = (omega arith, weaken s m h)

  get-behind :
      (k : ℕ) (v : V) (m n : BTreeMap ℕ V)
      → All (λ e. k + 1 ≤ e.0) n
      → All (λ e. get e.0 m ≡ some e.1) n
      → All (λ e. get e.0 ((k, v) ∷ m) ≡ some e.1) n
  unfolding get
  get-behind k v m [] a h = tt
  get-behind k v m (e ∷ n) (p, a) (q, h) = (ground arith, get-behind k v m n a h)

  -- Where the keys have no gap, every entry is what the map holds at its key.
  pub range_self :
      (m : BTreeMap ℕ V) (start n : ℕ)
      → keys m ≡ range_from start n
      → All (λ e. get e.0 m ≡ some e.1) m
  range_self [] start n e = tt
  range_self ((k, v) ∷ m) start zero e = absurd (cc)
  range_self ((k, v) ∷ m) start (suc n) e =
      let same : k ≡ start = cc in
      let later : keys m ≡ range_from (start + 1) n = cc in
      (
        unfold get in ground arith,
        get-behind k v m m (rw same (range-le m (start + 1) n later))
            (range_self m (start + 1) n later),
      )

  pub contains_key-get : (k : ℕ) (m : BTreeMap ℕ V) → contains_key k m ≡ is_some (get k m)
  unfolding get contains_key
  contains_key-get k [] = refl
  contains_key-get k ((j, v) ∷ m) = ground (arith, contains_key-get k m)
