-- ===== src/Merkle/Spec.antt =====
-- The loop of `build_merkle_root` computes the root of a balanced tree (merkle.rs).
use graph_privacy_showcase_d.Common.{
  ℕ, zero, suc, ◌+◌, ◌<◌, ◌≤◌, List, [], ◌∷◌, ◌≡◌, refl, ap, inl, inr, arith, leb, if◌then◌else◌,
  length, take, drop, ok, length-drop, length-take_le, take-nil, drop-nil, Bool-cases, leb→le,
  leb_false→lt, lt→leb_false, le→leb,
}
use graph_privacy_showcase_d.Field.{FieldOps, hash_pair}
use graph_privacy_showcase_d.Merkle.{next_level, reduce, build_merkle_root}

abbrev pub pow2 : ℕ → ℕ
pow2 zero = 1
pow2 (suc h) = pow2 h + pow2 h

-- The height of the tree over a number of leaves: the least one whose tree has room for them.
abbrev pub IsHeight : ℕ → ℕ → Type 0
IsHeight zero n = n ≡ 1
IsHeight (suc h) n = (pow2 h < n) × (n ≤ pow2 (suc h))

pow2-gt : (h : ℕ) → h < pow2 h
pow2-gt zero = omega arith
pow2-gt (suc h) = omega (arith, pow2-gt h)

IsHeight-le : (h n : ℕ) → IsHeight h n → h ≤ n
IsHeight-le zero n e = omega arith
IsHeight-le (suc h) n e = omega (arith, pow2-gt h)

IsHeight-suc : (h n : ℕ) → IsHeight h n → (k : ℕ) × IsHeight k (suc n)
IsHeight-suc zero n e = (1, omega arith)
IsHeight-suc (suc h) n (lo, hi) = elim (Bool-cases (leb (suc n) (pow2 (suc h)))) [
  | inl fits ↦ (suc h, (omega arith, leb→le _ _ fits))
  | inr full ↦
      let more : pow2 (suc h) < suc n = leb_false→lt _ _ full in
      (suc (suc h), (more, omega (arith, pow2-gt h)))
]

-- Every number of leaves but zero has a height.
pub IsHeight-of : (n : ℕ) → (h : ℕ) × IsHeight h (suc n)
IsHeight-of zero = (0, refl)
IsHeight-of (suc n) = let (h, e) = IsHeight-of n in IsHeight-suc h (suc n) e

module _ (F : FieldOps) where
  open F use {Fr}

  -- The root of the tree of a height, from the top: the first half of the places, then the second.
  -- A half that holds no leaf is a copy of the other. The element `d` stands for no leaves at all.
  unfoldable pub tree : Fr → ℕ → List Fr → Fr
  tree d zero [] = d
  tree d zero (leaf ∷ leaves) = leaf
  tree d (suc h) leaves =
      if leb (length leaves) (pow2 h)
      then hash_pair F (tree d h leaves) (tree d h leaves)
      else hash_pair F (tree d h (take (pow2 h) leaves)) (tree d h (drop (pow2 h) leaves))

  take-next_level :
      (n m : ℕ) (xs : List Fr) → m ≡ n + n → take n (next_level F xs) ≡ next_level F (take m xs)
  unfolding next_level
  take-next_level zero zero xs e = refl
  take-next_level zero (suc m) xs e = absurd (omega arith)
  take-next_level (suc n) zero xs e = absurd (omega arith)
  take-next_level (suc n) (suc zero) xs e = absurd (omega arith)
  take-next_level (suc n) (suc (suc m)) [] e = refl
  take-next_level (suc n) (suc (suc m)) (a ∷ []) e = ap (λ r. hash_pair F a a ∷ r) (take-nil n)
  take-next_level (suc n) (suc (suc m)) (a ∷ b ∷ xs) e =
      ap (λ r. hash_pair F a b ∷ r) (take-next_level n m xs (omega arith))

  drop-next_level :
      (n m : ℕ) (xs : List Fr) → m ≡ n + n → drop n (next_level F xs) ≡ next_level F (drop m xs)
  unfolding next_level
  drop-next_level zero zero xs e = refl
  drop-next_level zero (suc m) xs e = absurd (omega arith)
  drop-next_level (suc n) zero xs e = absurd (omega arith)
  drop-next_level (suc n) (suc zero) xs e = absurd (omega arith)
  drop-next_level (suc n) (suc (suc m)) [] e = refl
  drop-next_level (suc n) (suc (suc m)) (a ∷ []) e = drop-nil n
  drop-next_level (suc n) (suc (suc m)) (a ∷ b ∷ xs) e = drop-next_level n m xs (omega arith)

  pub length-next_level :
      (xs : List Fr)
      → (length xs ≤ length (next_level F xs) + length (next_level F xs))
        × (length (next_level F xs) + length (next_level F xs) ≤ suc (length xs))
  unfolding next_level
  length-next_level [] = omega arith
  length-next_level (a ∷ []) = omega arith
  length-next_level (a ∷ b ∷ xs) = omega (arith, length-next_level xs)

  IsHeight-next_level :
      (h : ℕ) (xs : List Fr) → IsHeight (suc h) (length xs) → IsHeight h (length (next_level F xs))
  IsHeight-next_level zero xs e = omega (arith, length-next_level xs)
  IsHeight-next_level (suc h) xs e = omega (arith, length-next_level xs)

  tree_low :
      (d : Fr) (h : ℕ) (xs : List Fr)
      → length xs ≤ pow2 h
      → tree d (suc h) xs ≡ hash_pair F (tree d h xs) (tree d h xs)
  unfolding tree
  tree_low d h xs le = rw (le→leb _ _ le)

  tree_high :
      (d : Fr) (h : ℕ) (xs : List Fr)
      → pow2 h < length xs
      → tree d (suc h) xs ≡ hash_pair F (tree d h (take (pow2 h) xs)) (tree d h (drop (pow2 h) xs))
  unfolding tree
  tree_high d h xs lt = rw (lt→leb_false _ _ lt)

  -- A tree over the leaves is a lower tree over their parents.
  tree-next_level :
      (d : Fr) (h : ℕ) (xs : List Fr)
      → 0 < length xs
      → length xs ≤ pow2 (suc h)
      → tree d (suc h) xs ≡ tree d h (next_level F xs)
  tree-next_level d zero [] pos le = absurd (omega arith)
  tree-next_level d zero (a ∷ []) pos le = unfold tree next_level in refl
  tree-next_level d zero (a ∷ b ∷ []) pos le = unfold tree next_level in refl
  tree-next_level d zero (a ∷ b ∷ c ∷ xs) pos le = absurd (omega arith)
  tree-next_level d (suc h) xs pos le = elim (Bool-cases (leb (length xs) (pow2 (suc h)))) [
    | inl low ↦
        let fits : length xs ≤ pow2 (suc h) = leb→le _ _ low in
        rw (
          tree_low d (suc h) xs fits,
          tree_low d h (next_level F xs) (omega (arith, length-next_level xs)),
          tree-next_level d h xs pos fits,
        )
    | inr high ↦
        let more : pow2 (suc h) < length xs = leb_false→lt _ _ high in
        let left = take (pow2 (suc h)) xs in
        let right = drop (pow2 (suc h)) xs in
        let full : length left ≡ pow2 (suc h) = length-take_le (pow2 (suc h)) xs (omega arith) in
        rw (
          tree_high d (suc h) xs more,
          tree_high d h (next_level F xs) (omega (arith, length-next_level xs)),
          take-next_level (pow2 h) (pow2 (suc h)) xs refl,
          drop-next_level (pow2 h) (pow2 (suc h)) xs refl,
          tree-next_level d h left (omega (arith, pow2-gt h)) (omega arith),
          tree-next_level d h right (omega (arith, length-drop {0} (pow2 (suc h)) xs))
              (omega (arith, length-drop {0} (pow2 (suc h)) xs)),
        )
  ]

  reduce-tree :
      (d : Fr) (h fuel : ℕ) (xs : List Fr)
      → IsHeight h (length xs)
      → h ≤ fuel
      → reduce F fuel xs ≡ ok (tree d h xs)
  unfolding reduce
  reduce-tree d zero fuel [] e le = absurd (omega arith)
  reduce-tree d zero fuel (a ∷ []) e le = unfold tree in refl
  reduce-tree d zero fuel (a ∷ b ∷ xs) e le = absurd (omega arith)
  reduce-tree d (suc h) fuel [] e le = absurd (omega arith)
  reduce-tree d (suc h) fuel (a ∷ []) e le = absurd (omega (arith, pow2-gt h))
  reduce-tree d (suc h) zero (a ∷ b ∷ xs) e le = absurd (omega arith)
  reduce-tree d (suc h) (suc fuel) (a ∷ b ∷ xs) e le =
      rw (tree-next_level d h (a ∷ b ∷ xs) (omega arith) e.1) (
        reduce-tree d h fuel (next_level F (a ∷ b ∷ xs)) (IsHeight-next_level h (a ∷ b ∷ xs) e)
          (omega arith))

  -- Over any leaves the loop ends, and its result is the root of the tree of their height.
  pub build_merkle_root-eq-tree :
      (leaf : Fr) (leaves : List Fr) (h : ℕ)
      → IsHeight h (length (leaf ∷ leaves))
      → build_merkle_root F (leaf ∷ leaves) ≡ ok (tree leaf h (leaf ∷ leaves))
  unfolding build_merkle_root
  build_merkle_root-eq-tree leaf leaves h e =
      reduce-tree leaf h (length (leaf ∷ leaves)) (leaf ∷ leaves) e (IsHeight-le h _ e)

  -- The root exists exactly when there is a leaf.
  pub build_merkle_root_total :
      (leaves : List Fr) → 0 < length leaves → (root : Fr) × (build_merkle_root F leaves ≡ ok root)
  build_merkle_root_total [] h = absurd (omega arith)
  build_merkle_root_total (leaf ∷ leaves) h =
      let (k, e) = IsHeight-of (length leaves) in
      (tree leaf k (leaf ∷ leaves), build_merkle_root-eq-tree leaf leaves k e)
