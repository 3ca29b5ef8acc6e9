-- ===== src/Merkle/History.antt =====
-- When `root_history` succeeds, and what its roots depend on (merkle.rs).
use graph_privacy_showcase_d.Common.{
  ℕ, zero, suc, ◌<◌, ◌≤◌, false, ◌||◌, List, [], ◌∷◌, ◌≡◌, ◌↔◌, refl, arith, ◌==◌, ltb, length,
  take, ok, All, length-take_le,
}
use graph_privacy_showcase_d.Field.{FieldOps}
use graph_privacy_showcase_d.Merkle.{build_merkle_root, root_history}
use graph_privacy_showcase_d.Merkle.Spec.{build_merkle_root_total}

-- A count of leaves that a log of a length can have had.
abbrev pub InRange : ℕ → ℕ → Type 0
InRange n count = (0 < count) × (count ≤ n)

pub in_range : (n count : ℕ) → ((count == 0 || ltb n count) ≡ false) ↔ InRange n count
in_range n count = ((λ h. ground arith), (λ h. ground arith))

same_prefix {ℓ} :
    {A : Type ℓ} (n k : ℕ) (xs ys : List A) → n ≤ k → take k xs ≡ take k ys → take n xs ≡ take n ys
same_prefix zero k xs ys le e = refl
same_prefix (suc n) zero xs ys le e = absurd (omega arith)
same_prefix (suc n) (suc k) [] [] le e = refl
same_prefix (suc n) (suc k) [] (y ∷ ys) le e = absurd (cc)
same_prefix (suc n) (suc k) (x ∷ xs) [] le e = absurd (cc)
same_prefix (suc n) (suc k) (x ∷ xs) (y ∷ ys) le e = cc (same_prefix n k xs ys (omega arith) (cc))

module _ (F : FieldOps) where
  open F use {Fr}

  -- The roots are those of the prefixes that the counts name, in their order.
  abbrev pub AreRoots : List Fr → List ℕ → List Fr → Type 0
  AreRoots leaves [] [] = Unit
  AreRoots leaves [] (root ∷ roots) = ⊥
  AreRoots leaves (count ∷ counts) [] = ⊥
  AreRoots leaves (count ∷ counts) (root ∷ roots) =
      (build_merkle_root F (take count leaves) ≡ ok root) × AreRoots leaves counts roots

  -- If every count is between one and the number of leaves, the roots of all prefixes are returned.
  pub root_history_total :
      (leaves : List Fr) (counts : List ℕ)
      → All (InRange (length leaves)) counts
      → (roots : List Fr) × (root_history F leaves counts ≡ ok roots) × AreRoots leaves counts roots
  unfolding root_history
  root_history_total leaves [] h = ([], refl, tt)
  root_history_total leaves (count ∷ counts) (p, h) =
      let (root, built) =
        build_merkle_root_total F (take count leaves)
          (omega (arith, length-take_le {0} count leaves p.1)) in
      let (roots, rest, are) = root_history_total leaves counts h in
      (root ∷ roots, rw ((in_range (length leaves) count).1 p, built, rest), (built, are))

  -- On success every count was in range, and the roots are those of the prefixes.
  pub root_history-eq-ok :
      (leaves : List Fr) (counts : List ℕ) (roots : List Fr)
      → root_history F leaves counts ≡ ok roots
      → All (InRange (length leaves)) counts × AreRoots leaves counts roots
  unfolding root_history
  root_history-eq-ok leaves [] [] e = (tt, tt)
  root_history-eq-ok leaves [] (root ∷ roots) e = cc
  root_history-eq-ok leaves (count ∷ counts) [] e = absurd (ground arith)
  root_history-eq-ok leaves (count ∷ counts) (root ∷ roots) e =
      let (h, are) = root_history-eq-ok leaves counts roots (ground arith) in
      (((in_range (length leaves) count).0 (ground arith), h), (ground arith, are))

  -- If two logs agree on their first `k` leaves, which both have, and every count is between one
  -- and `k`, their root histories are the same: no root covers a leaf beyond the largest count.
  pub root_history_prefix :
      (k : ℕ) (xs ys : List Fr) (counts : List ℕ)
      → take k xs ≡ take k ys
      → k ≤ length xs
      → k ≤ length ys
      → All (InRange k) counts
      → root_history F xs counts ≡ root_history F ys counts
  unfolding root_history
  root_history_prefix k xs ys [] e hx hy h = refl
  root_history_prefix k xs ys (count ∷ counts) e hx hy (p, h) = rw (
    (in_range (length xs) count).1 (omega arith),
    (in_range (length ys) count).1 (omega arith),
    same_prefix count k xs ys p.1 e,
    root_history_prefix k xs ys counts e hx hy h,
  )
