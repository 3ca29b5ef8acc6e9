-- ===== src/Fixtures/Spent.antt =====
-- The calls of the generated lifecycle against the generated manifest and records (fixtures.rs).
use graph_privacy_showcase_d.Common.{
  ℕ, some, List, [], ◌∷◌, ◌++◌, map, take, drop, get_elem?, ◌≡◌, refl, sym, ◌∙◌, arith, All,
  All-append, ok, map_results, ok-injective,
}
use graph_privacy_showcase_d.Common.Text.{Text, text_eq}
use graph_privacy_showcase_d.Common.BTreeMap.{get, insert, first_gap}
use graph_privacy_showcase_d.Field.{FieldOps, fr_from_hex, fr_to_hex, note_commitment}
use graph_privacy_showcase_d.Field.Codec.{FieldLaws}
use graph_privacy_showcase_d.Field.Roundtrip.{fr_from_hex-fr_to_hex}
use graph_privacy_showcase_d.Merkle.{root_history}
use graph_privacy_showcase_d.Records.{
  DisclosedRecord, AccountingClass, disclosed, burn_output_zero, ManifestEntry,
  recompute_commitment, check_class, check_entries, check_seen, check_internal_consistency,
}
use graph_privacy_showcase_d.Attestation.{B256}
use graph_privacy_showcase_d.Fixtures.{Lifecycle, GeneratedFixtures, Leaf, asset_id}
use graph_privacy_showcase_d.Fixtures.Generate.{pushed, generate_with_maturity}
use graph_privacy_showcase_d.Fixtures.Made.{
  IsU64, IsU64Leaf, fr_from_u64_ok, notes, note_of, commitments, record_for, filed_as, records_for,
}
use graph_privacy_showcase_d.Fixtures.Whole.{
  made, roots, replayed_ok, notes-IsU64Leaf, generate_with_maturity-eq-made,
}

-- The element of a leg's public inputs at a place: the nullifier is at 1 and the commitment at 2.
abbrev pub input_at : ℕ → List Text → List Text
input_at i inputs = take 1 (drop i inputs)

-- The nullifiers that the calls spend and the commitments that they append, in the order of the calls.
abbrev pub spent_by_calls : Lifecycle → List Text
spent_by_calls l =
    l.transfer.nullifiers_in
    ++ (input_at 1 l.atomic_swap.public_inputs_a
        ++ (input_at 1 l.atomic_swap.public_inputs_b ++ l.burn.nullifiers_in))

abbrev pub appended_by_calls : Lifecycle → List Text
appended_by_calls l =
    l.mint.commitment
    ∷ (l.mint_batch.commitments
        ++ (l.transfer.commitments_out
            ++ (input_at 2 l.atomic_swap.public_inputs_a
                ++ (input_at 2 l.atomic_swap.public_inputs_b ++ l.burn.commitments_out))))

module _ (F : FieldOps) (L : FieldLaws F) (m : ℕ) where
  open F use {Fr}

  pub is_made :
      (keccak256 : Text → B256) (g : GeneratedFixtures)
      → IsU64 m
      → generate_with_maturity F keccak256 m ≡ ok g
      → g ≡ made F L m keccak256
  is_made keccak256 g h e =
      ok-injective _ _ (sym e ∙ generate_with_maturity-eq-made F L m keccak256 h)

  -- Of the fixtures generated for a maturity of 64 bits, the nullifiers that the calls spend are
  -- those of the records, in their order, and the commitments that the calls append
  -- are those of the manifest's entries, in their order.
  pub generated_calls :
      (keccak256 : Text → B256) (g : GeneratedFixtures)
      → IsU64 m
      → generate_with_maturity F keccak256 m ≡ ok g
      → (spent_by_calls g.lifecycle ≡ map (λ (p : Text × DisclosedRecord). p.1.nullifier) g.records)
        × (appended_by_calls g.lifecycle
            ≡ map (λ (e : ManifestEntry). e.commitment) g.manifest.entries)
  unfolding text_eq
  generated_calls keccak256 g h e = rw (is_made keccak256 g h e) (refl, refl)

  read_back : (cs : List Fr) → map_results (λ c. fr_from_hex F c) (map (fr_to_hex F) cs) ≡ ok cs
  read_back [] = refl
  read_back (c ∷ cs) = rw (fr_from_hex-fr_to_hex F L c, read_back cs) refl

  -- Of the fixtures generated for a maturity of 64 bits, the commitments of the manifest can be read
  -- back, their root history at the manifest's call boundaries is the list of expected roots, and
  -- the transfer, both legs of the swap and the burn cite the root after the call before them.
  pub generated_roots :
      (keccak256 : Text → B256) (g : GeneratedFixtures)
      → IsU64 m
      → generate_with_maturity F keccak256 m ≡ ok g
      → ((leaves : List Fr) × (history : List Fr) × (map_results
              (λ (e : ManifestEntry). fr_from_hex F e.commitment)
              g.manifest.entries
            ≡ ok leaves)
          × (root_history F leaves g.manifest.leaf_counts_after_each_call ≡ ok history)
          × (g.lifecycle.expected_roots ≡ map (fr_to_hex F) history))
        × (get_elem? g.lifecycle.expected_roots 1 ≡ some g.lifecycle.transfer.root)
        × (take 1 (drop 2 g.lifecycle.expected_roots)
            ≡ input_at 0 g.lifecycle.atomic_swap.public_inputs_a)
        × (take 1 (drop 2 g.lifecycle.expected_roots)
            ≡ input_at 0 g.lifecycle.atomic_swap.public_inputs_b)
        × (get_elem? g.lifecycle.expected_roots 3 ≡ some g.lifecycle.burn.root)
  generated_roots keccak256 g h e = rw (is_made keccak256 g h e) (
    (commitments F L m, roots F L m, read_back (commitments F L m), replayed_ok F L m, refl),
    refl,
    refl,
    refl,
    refl,
  )

  pub recompute_commitment-record_for :
      IsU64 m
      → (leaf : Leaf F) → IsU64Leaf F L leaf
      → recompute_commitment F (record_for F L m leaf) ≡ ok (fr_to_hex F (note_of F L m leaf))
  unfolding recompute_commitment note_commitment
  recompute_commitment-record_for h leaf (v, s) =
      rw
        (
          fr_from_hex-fr_to_hex F L leaf.owner,
          fr_from_u64_ok F L leaf.value v,
          fr_from_u64_ok F L leaf.salt s,
          fr_from_u64_ok F L asset_id (omega arith),
          fr_from_u64_ok F L m h,
        )
        refl

  -- The plaintext of a record hashes to the commitment that it states.
  abbrev pub Recomputes : Text × DisclosedRecord → Type 0
  Recomputes (file, r) = recompute_commitment F r ≡ ok r.commitment

  records_for-Recomputes :
      IsU64 m
      → (ls : List (Leaf F)) → All (IsU64Leaf F L) ls
      → All Recomputes (records_for F L m ls)
  records_for-Recomputes h [] all = tt
  records_for-Recomputes h (leaf ∷ rest) (p, all) =
      All-append Recomputes _ _ (by_class leaf.class) (records_for-Recomputes h rest all)
    where
      by_class : (c : AccountingClass) → All Recomputes (pushed (filed_as F L m leaf c))
      by_class disclosed = (recompute_commitment-record_for h leaf p, tt)
      by_class burn_output_zero = tt

  pub made_consistent :
      (keccak256 : Text → B256) → check_internal_consistency (made F L m keccak256).manifest ≡ ok tt
  unfolding check_internal_consistency check_entries check_class check_seen first_gap get insert
  made_consistent keccak256 = refl

  -- For every maturity of 64 bits the fixtures are generated, their manifest passes its own check,
  -- and the plaintext of each of their records hashes to the commitment that the record states.
  pub generate_with_maturity_total :
      (keccak256 : Text → B256)
      → IsU64 m
      → (g : GeneratedFixtures) × (generate_with_maturity F keccak256 m ≡ ok g)
        × (check_internal_consistency g.manifest ≡ ok tt)
        × All Recomputes g.records
  generate_with_maturity_total keccak256 h = (
    made F L m keccak256,
    generate_with_maturity-eq-made F L m keccak256 h,
    made_consistent keccak256,
    records_for-Recomputes h (notes F L) (notes-IsU64Leaf F L m),
  )
