-- ===== src/Merkle.antt =====
-- merkle.rs of items/01-private-bond-replay/src/replay/src: the root that the contract computes over
-- its leaves, and the roots after each call.
pub mod Spec
pub mod Binding
pub mod History
use graph_privacy_showcase_d.Common.{
  ℕ, zero, suc, ◌<◌, Bool, ◌||◌, List, [], ◌∷◌, ◌==◌, ltb, length, take, Result, ok, err, ◌>>=◌,
  ◌>>◌, bail_if, no_commitments, fuel_exhausted, leaf_count_out_of_range,
}
use graph_privacy_showcase_d.Field.{FieldOps, hash_pair}

module _ (F : FieldOps) where
  open F use {Fr}

  -- The inner loop: one level of the tree from the level below. An unpaired node is its own sibling.
  unfoldable pub next_level : List Fr → List Fr
  next_level [] = []
  next_level (left ∷ []) = hash_pair F left left ∷ []
  next_level (left ∷ right ∷ rest) = hash_pair F left right ∷ next_level rest

  -- `while current.len() > 1 { .. }`, then `current[0]`. Each round shortens the level.
  unfoldable pub reduce : ℕ → List Fr → Result Fr
  reduce fuel [] = err no_commitments
  reduce fuel (root ∷ []) = ok root
  reduce zero (a ∷ b ∷ rest) = err fuel_exhausted
  reduce (suc fuel) (a ∷ b ∷ rest) = reduce fuel (next_level (a ∷ b ∷ rest))

  unfoldable pub build_merkle_root : List Fr → Result Fr
  build_merkle_root [] = err no_commitments
  build_merkle_root (leaf ∷ leaves) = reduce (length (leaf ∷ leaves)) (leaf ∷ leaves)

  unfoldable pub root_history : List Fr → List ℕ → Result (List Fr)
  root_history leaves [] = ok []
  root_history leaves (count ∷ counts) = do
    bail_if (count == 0 || ltb (length leaves) count)
        (leaf_count_out_of_range count (length leaves))
    root ← build_merkle_root (take count leaves)
    roots ← root_history leaves counts
    ok (root ∷ roots)
