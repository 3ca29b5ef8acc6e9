-- ===== src/Onchain/Storage.antt =====
-- What `read_all_commitments` reads (onchain.rs).
use graph_privacy_showcase_d.Common.{
  ℕ, zero, suc, ◌+◌, List, [], ◌∷◌, ◌≡◌, ◌⊎◌, inl, inr, refl, sym, ap, ◌∙◌, arith, length, ok,
  Option, some, none, Option-cases,
}
use graph_privacy_showcase_d.Attestation.{B256}
use graph_privacy_showcase_d.Onchain.{
  Node, ChainReader, commitment_at, read_from, read_all_commitments,
}

module _ (N : Node) (r : ChainReader N) where
  -- What the contract's getter gives at an index; none where the call fails.
  abbrev pub stored_at : ℕ → Option B256
  stored_at i = N.commitments_of r.provider r.contract r.block i

  -- The values are those of the array from an index on.
  abbrev pub StoredFrom : ℕ → List B256 → Type 0
  StoredFrom i [] = Unit
  StoredFrom i (value ∷ values) = (stored_at i ≡ some value) × StoredFrom (i + 1) values

  -- The reading stopped after a number of rounds, or at a call that failed.
  abbrev pub Stopped : ℕ → ℕ → List B256 → Type 0
  Stopped i rounds values = (length values ≡ rounds) ⊎ (stored_at (i + length values) ≡ none)

  step-Stopped :
      (i rounds : ℕ) (value : B256) (values : List B256)
      → Stopped (i + 1) rounds values
      → Stopped i (suc rounds) (value ∷ values)
  step-Stopped i rounds value values (inl all) = inl (ap suc all)
  step-Stopped i rounds value values (inr failed) =
      let same : i + 1 + length values ≡ i + suc (length values) = omega arith in
      inr (ap stored_at (sym same) ∙ failed)

  read_from_sound :
      (i rounds : ℕ)
      → StoredFrom i (read_from N r i rounds) × Stopped i rounds (read_from N r i rounds)
  unfolding read_from commitment_at
  read_from_sound i zero = (tt, inl refl)
  read_from_sound i (suc rounds) = elim (Option-cases (stored_at i)) [
    | inr (value, read) ↦
        let (stored, stopped) = read_from_sound (i + 1) rounds in
        rw (read_from, commitment_at, read)
          ((read, stored), step-Stopped i rounds value (read_from N r (i + 1) rounds) stopped)
    | inl failed ↦
        let here : i + 0 ≡ i = omega arith in
        rw (read_from, commitment_at, failed) (tt, inr (ap stored_at here ∙ failed))
  ]

  -- The reading always succeeds. It returns the values of the contract's array from its start, either one
  -- more than the index that was asked for, or up to the first index at which the call fails.
  pub read_all_commitments_sound :
      (expected_max : ℕ)
      → (values : List B256) × (read_all_commitments N r expected_max ≡ ok values)
        × StoredFrom 0 values
        × Stopped 0 (suc expected_max) values
  unfolding read_all_commitments
  read_all_commitments_sound expected_max =
      let (stored, stopped) = read_from_sound 0 (suc expected_max) in
      (read_from N r 0 (suc expected_max), refl, stored, stopped)
