-- ===== src/Fixtures/Whole.antt =====
-- What `generate_with_maturity` returns, as a whole (fixtures.rs).
use graph_privacy_showcase_d.Common.{
  ℕ, suc, true, Option, none, some, List, [], ◌∷◌, ◌++◌, map, take, length, get_elem?, ◌≡◌, refl,
  arith, All, ok, map_results, map_results_ok,
}
use graph_privacy_showcase_d.Common.Text.{Text, codes, text_eq}
use graph_privacy_showcase_d.Field.{FieldOps, fr_to_hex}
use graph_privacy_showcase_d.Field.Codec.{FieldLaws}
use graph_privacy_showcase_d.Merkle.{build_merkle_root, root_history}
use graph_privacy_showcase_d.Merkle.Spec.{tree, IsHeight, build_merkle_root-eq-tree}
use graph_privacy_showcase_d.Records.{burn_output_zero}
use graph_privacy_showcase_d.Records.Manifest.{manifest_schema}
use graph_privacy_showcase_d.Attestation.{B256}
use graph_privacy_showcase_d.Fixtures.{
  bond_id_string, issuer_pk, investor_a_pk, investor_b_pk, proof_placeholder_hex, JoinSplitArgs,
  lifecycle_schema, GeneratedFixtures, Leaf, leaf_commitment,
}
use graph_privacy_showcase_d.Fixtures.Generate.{
  leaf_counts, call_order, before_maturity, root_after, join_split, swap_leg, actor_for,
  generate_with_maturity,
}
use graph_privacy_showcase_d.Fixtures.Made.{
  IsU64, IsU64Leaf, HasHolder, element, fr_from_u64_ok, spent, spend_ok, new_actor_ok, issuer,
  investor_a, investor_b, holder, notes, note_of, leaf_commitment_ok, commitments, entry_for,
  records_for, account_for_ok,
}

module _ (F : FieldOps) (L : FieldLaws F) (m : ℕ) where
  open F use {Fr, hash, hex_encode}

  abbrev hex : Fr → Text
  hex = fr_to_hex F

  -- A note of the lifecycle by its number; there are eight.
  abbrev pub leaf_no : ℕ → Leaf F
  leaf_no i = from (get_elem? (notes F L) i)
    where
      from : Option (Leaf F) → Leaf F
      from none = record {
        index = i;
        value = 0;
        salt = 0;
        owner = element F L 0;
        owner_label = [];
        source_function = [];
        class = burn_output_zero;
        note = [];
      }
      from (some leaf) = leaf

  abbrev commitment_no : ℕ → Text
  commitment_no i = hex (note_of F L m (leaf_no i))

  abbrev spent_no : ℕ → Text
  spent_no i = spent F L (leaf_no i) (holder F L (leaf_no i).owner_label)

  -- The root of the tree of height `h` over the first `n` commitments.
  abbrev pub root_at : ℕ → ℕ → Fr
  root_at h n = tree F (note_of F L m (leaf_no 0)) h (take n (commitments F L m))

  abbrev pub roots : List Fr
  roots = root_at 0 1 ∷ root_at 1 2 ∷ root_at 2 4 ∷ root_at 3 6 ∷ root_at 3 8 ∷ []

  root_at_ok :
      (h n : ℕ)
      → IsHeight h (length (take (suc n) (commitments F L m)))
      → build_merkle_root F (take (suc n) (commitments F L m)) ≡ ok (root_at h (suc n))
  root_at_ok h n e = build_merkle_root-eq-tree F _ _ h e

  pub replayed_ok : root_history F (commitments F L m) leaf_counts ≡ ok roots
  unfolding root_history
  replayed_ok =
      rw
        (
          root_at_ok 0 0 refl,
          root_at_ok 1 1 (omega arith),
          root_at_ok 2 3 (omega arith),
          root_at_ok 3 5 (omega arith),
          root_at_ok 3 7 (omega arith),
        )
        refl

  roots_ok : map_results (root_after F (commitments F L m)) leaf_counts ≡ ok roots
  unfolding root_after
  roots_ok =
      rw
        (
          root_at_ok 0 0 refl,
          root_at_ok 1 1 (omega arith),
          root_at_ok 2 3 (omega arith),
          root_at_ok 3 5 (omega arith),
          root_at_ok 3 7 (omega arith),
        )
        refl

  abbrev join_split_for : Fr → ℕ → ℕ → ℕ → ℕ → JoinSplitArgs
  join_split_for root first second out_first out_second = record {
    root = hex root;
    nullifiers_in = spent_no first ∷ spent_no second ∷ [];
    commitments_out = commitment_no out_first ∷ commitment_no out_second ∷ [];
  }

  abbrev swap_leg_for : Fr → ℕ → ℕ → List Text
  swap_leg_for root input out =
      hex root ∷ spent_no input ∷ commitment_no out ∷ hex (element F L m) ∷ []

  transfer_ok :
      join_split F (notes F L) (commitments F L m) roots 1 (0, issuer F L) (1, issuer F L) 2 3
      ≡ ok (join_split_for (root_at 1 2) 0 1 2 3)
  unfolding join_split text_eq
  transfer_ok =
      rw
        (
          spend_ok F L (leaf_no 0) (issuer F L) (omega arith),
          spend_ok F L (leaf_no 1) (issuer F L) (omega arith),
        )
        refl

  burn_ok :
      join_split F (notes F L) (commitments F L m) roots 3 (4, investor_b F L) (5, issuer F L) 6 7
      ≡ ok (join_split_for (root_at 3 6) 4 5 6 7)
  unfolding join_split text_eq
  burn_ok =
      rw
        (
          spend_ok F L (leaf_no 4) (investor_b F L) (omega arith),
          spend_ok F L (leaf_no 5) (issuer F L) (omega arith),
        )
        refl

  leg_a_ok :
      swap_leg F (notes F L) (commitments F L m) roots 2 (2, investor_a F L) 4 (hex (element F L m))
      ≡ ok (swap_leg_for (root_at 2 4) 2 4)
  unfolding swap_leg text_eq
  leg_a_ok = rw (spend_ok F L (leaf_no 2) (investor_a F L) (omega arith)) refl

  leg_b_ok :
      swap_leg F (notes F L) (commitments F L m) roots 2 (3, issuer F L) 5 (hex (element F L m))
      ≡ ok (swap_leg_for (root_at 2 4) 3 5)
  unfolding swap_leg text_eq
  leg_b_ok = rw (spend_ok F L (leaf_no 3) (issuer F L) (omega arith)) refl

  abbrev pub made : (Text → B256) → GeneratedFixtures
  made keccak256 = record {
    lifecycle = record {
      schema = lifecycle_schema;
      bond_id_string = bond_id_string;
      bond_id = codes "0x" ++ hex_encode (keccak256 bond_id_string);
      maturity_date = m;
      fixture_genesis_timestamp = before_maturity m;
      proof_placeholder = proof_placeholder_hex;
      proof_bytes_are_placeholders = true;
      mint = record { commitment = commitment_no 0 };
      mint_batch = record { commitments = commitment_no 1 ∷ [] };
      transfer = join_split_for (root_at 1 2) 0 1 2 3;
      atomic_swap = record {
        public_inputs_a = swap_leg_for (root_at 2 4) 2 4;
        public_inputs_b = swap_leg_for (root_at 2 4) 3 5;
      };
      burn = join_split_for (root_at 3 6) 4 5 6 7;
      expected_roots = map hex roots;
    };
    manifest = record {
      schema = manifest_schema;
      bond_id = codes "0x" ++ hex_encode (keccak256 bond_id_string);
      bond_id_string = bond_id_string;
      maturity_date = m;
      leaf_counts_after_each_call = leaf_counts;
      call_order = call_order;
      entries = map (entry_for F L m) (notes F L);
    };
    records = records_for F L m (notes F L);
  }

  pub notes-IsU64Leaf : All (IsU64Leaf F L) (notes F L)
  notes-IsU64Leaf = omega arith

  notes-HasHolder : All (HasHolder F L) (notes F L)
  unfolding actor_for text_eq
  notes-HasHolder = (refl, (refl, (refl, (refl, (refl, (refl, (refl, (refl, tt))))))))

  pub generate_with_maturity-eq-made :
      (keccak256 : Text → B256)
      → IsU64 m
      → generate_with_maturity F keccak256 m ≡ ok (made keccak256)
  unfolding generate_with_maturity
  generate_with_maturity-eq-made keccak256 h =
      rw
        (
          new_actor_ok F L issuer_pk (omega arith),
          new_actor_ok F L investor_a_pk (omega arith),
          new_actor_ok F L investor_b_pk (omega arith),
          map_results_ok (leaf_commitment F m) (note_of F L m) (IsU64Leaf F L)
              (leaf_commitment_ok F L m h) (notes F L) notes-IsU64Leaf,
          roots_ok,
          transfer_ok,
          fr_from_u64_ok F L m h,
          leg_a_ok,
          leg_b_ok,
          burn_ok,
          account_for_ok F L m h (notes F L) notes-IsU64Leaf notes-HasHolder,
        )
        refl
