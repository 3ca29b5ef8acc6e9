-- ===== src/Fixtures/Generate.antt =====
-- `generate` and `generate_with_maturity` of fixtures.rs.
use graph_privacy_showcase_d.Common.{
  ℕ, ◌+◌, ◌-◌, ◌%◌, true, Option, none, some, List, [], ◌∷◌, ◌++◌, map, ltb, if◌then◌else◌, length,
  take, get_elem?, Result, ok, err, ◌>>=◌, map_results, context, leaf_count_out_of_range,
  index_out_of_bounds, unknown_owner_label,
}
use graph_privacy_showcase_d.Common.Text.{Text, codes, text_eq, decimal, u64_bound}
use graph_privacy_showcase_d.Field.{FieldOps, fr_from_u64, fr_to_hex, nullifier}
use graph_privacy_showcase_d.Merkle.{build_merkle_root}
use graph_privacy_showcase_d.Records.{
  DisclosedRecord, AccountingClass, disclosed, burn_output_zero, ManifestEntry,
}
use graph_privacy_showcase_d.Records.Manifest.{manifest_schema}
use graph_privacy_showcase_d.Attestation.{B256}
use graph_privacy_showcase_d.Fixtures.{
  bond_id_string, asset_id, issuer_pk, investor_a_pk, investor_b_pk, fixture_created_at,
  proof_placeholder_hex, maturity_offset_secs, default_maturity_date, JoinSplitArgs,
  lifecycle_schema, GeneratedFixtures, Actor, new_actor, Leaf, leaf_commitment, leaves,
}

-- `&xs[..n]` and `xs[i]`, which panic out of range.
abbrev pub slice_to {ℓ} : {A : Type ℓ} → ℕ → List A → Result (List A)
slice_to n xs =
    if ltb (length xs) n then err (leaf_count_out_of_range n (length xs)) else ok (take n xs)

abbrev pub index {ℓ} : {A : Type ℓ} → List A → ℕ → Result A
index xs i = context (index_out_of_bounds i) (get_elem? xs i)

abbrev pub leaf_counts : List ℕ
leaf_counts = 1 ∷ 2 ∷ 4 ∷ 6 ∷ 8 ∷ []

abbrev pub call_order : List Text
call_order =
    codes "mint" ∷ codes "mintBatch" ∷ codes "transfer" ∷ codes "atomicSwap" ∷ codes "burn" ∷ []

-- `maturity_date - MATURITY_OFFSET_SECS` on 64 bits; the release build wraps around.
abbrev pub before_maturity : ℕ → ℕ
before_maturity maturity_date = (maturity_date + u64_bound - maturity_offset_secs) % u64_bound

abbrev pub file_of : Option (Text × DisclosedRecord) → Option Text
file_of none = none
file_of (some (file, r)) = some file

abbrev pub pushed : Option (Text × DisclosedRecord) → List (Text × DisclosedRecord)
pushed none = []
pushed (some filed) = filed ∷ []

module _ (F : FieldOps) where
  open F use {Fr, hex_encode}

  abbrev pub file_name : Leaf F → Text
  file_name leaf =
      codes "bond_" ++ (leaf.owner_label ++ (codes "_" ++ (decimal leaf.salt ++ codes ".json")))

  abbrev pub entry_of : Leaf F → Text → Option Text → ManifestEntry
  entry_of leaf commitment_hex record_file = record {
    leaf_index = leaf.index;
    class = leaf.class;
    record_file = record_file;
    commitment = commitment_hex;
    source_function = leaf.source_function;
    note = leaf.note;
  }

  unfoldable pub root_after : List Fr → ℕ → Result Fr
  root_after commitments n = do prefix ← slice_to n commitments; build_merkle_root F prefix

  -- The closure `spend`.
  unfoldable pub spend : Leaf F → Actor F → Result Text
  spend leaf actor = do n ← nullifier F leaf.salt actor.private_key; ok (fr_to_hex F n)

  module _ (notes : List (Leaf F)) (commitments roots : List Fr) where
    -- The arguments of `transfer` and of `burn`: the root after the call `call`, two notes with
    -- the actors that spend them, and two new notes.
    unfoldable pub join_split : ℕ → ℕ × Actor F → ℕ × Actor F → ℕ → ℕ → Result JoinSplitArgs
    join_split call (first, first_actor) (second, second_actor) out_first out_second = do
      root ← index roots call
      note_first ← index notes first
      spent_first ← spend note_first first_actor
      note_second ← index notes second
      spent_second ← spend note_second second_actor
      made_first ← index commitments out_first
      made_second ← index commitments out_second
      ok record {
        root = fr_to_hex F root;
        nullifiers_in = spent_first ∷ spent_second ∷ [];
        commitments_out = fr_to_hex F made_first ∷ fr_to_hex F made_second ∷ [];
      }

    -- One leg of the atomic swap.
    unfoldable pub swap_leg : ℕ → ℕ × Actor F → ℕ → Text → Result (List Text)
    swap_leg call (input, actor) out maturity_hex = do
      root ← index roots call
      note ← index notes input
      spent ← spend note actor
      made ← index commitments out
      ok (fr_to_hex F root ∷ spent ∷ fr_to_hex F made ∷ maturity_hex ∷ [])

  -- The match on the class in the loop over the notes: the record with its file, if it is disclosed.
  unfoldable pub record_of :
      ℕ → Leaf F → Text → Actor F → AccountingClass → Result (Option (Text × DisclosedRecord))
  record_of maturity_date leaf commitment_hex owner_actor disclosed = do
    n ← nullifier F leaf.salt owner_actor.private_key
    ok (
        some (
          file_name leaf,
          record {
            commitment = commitment_hex;
            nullifier = fr_to_hex F n;
            value = leaf.value;
            salt = leaf.salt;
            owner = fr_to_hex F leaf.owner;
            asset_id = asset_id;
            maturity_date = maturity_date;
            created_at = fixture_created_at;
          },
        ))
  record_of maturity_date leaf commitment_hex owner_actor burn_output_zero = ok none

  module _ (issuer investor_a investor_b : Actor F) where
    unfoldable pub actor_for : Text → Result (Actor F)
    actor_for label =
        if text_eq label (codes "issuer")
        then ok issuer
        else if text_eq label (codes "investor-a")
        then ok investor_a
        else if text_eq label (codes "investor-b")
        then ok investor_b
        else err (unknown_owner_label label)

    -- The loop over the notes, with the entries and the records that it pushes.
    unfoldable pub account_for :
        ℕ → List (Leaf F) → Result (List ManifestEntry × List (Text × DisclosedRecord))
    account_for maturity_date [] = ok ([], [])
    account_for maturity_date (leaf ∷ rest) = do
      commitment ← leaf_commitment F maturity_date leaf
      owner_actor ← actor_for leaf.owner_label
      filed ← record_of maturity_date leaf (fr_to_hex F commitment) owner_actor leaf.class
      later ← account_for maturity_date rest
      ok (entry_of leaf (fr_to_hex F commitment) (file_of filed) ∷ later.0, pushed filed ++ later.1)

  unfoldable pub generate_with_maturity : (Text → B256) → ℕ → Result GeneratedFixtures
  generate_with_maturity keccak256 maturity_date = do
    issuer ← new_actor F issuer_pk
    investor_a ← new_actor F investor_a_pk
    investor_b ← new_actor F investor_b_pk
    let notes = leaves F issuer investor_a investor_b
    commitments ← map_results (leaf_commitment F maturity_date) notes
    roots ← map_results (root_after commitments) leaf_counts
    transfer ← join_split notes commitments roots 1 (0, issuer) (1, issuer) 2 3
    maturity ← fr_from_u64 F maturity_date
    let maturity_hex = fr_to_hex F maturity
    leg_a ← swap_leg notes commitments roots 2 (2, investor_a) 4 maturity_hex
    leg_b ← swap_leg notes commitments roots 2 (3, issuer) 5 maturity_hex
    burn ← join_split notes commitments roots 3 (4, investor_b) (5, issuer) 6 7
    let bond_id = codes "0x" ++ hex_encode (keccak256 bond_id_string)
    minted ← index commitments 0
    minted_in_batch ← index commitments 1
    accounted ← account_for issuer investor_a investor_b maturity_date notes
    ok record {
      lifecycle = record {
        schema = lifecycle_schema;
        bond_id_string = bond_id_string;
        bond_id = bond_id;
        maturity_date = maturity_date;
        fixture_genesis_timestamp = before_maturity maturity_date;
        proof_placeholder = proof_placeholder_hex;
        proof_bytes_are_placeholders = true;
        mint = record { commitment = fr_to_hex F minted };
        mint_batch = record { commitments = fr_to_hex F minted_in_batch ∷ [] };
        transfer = transfer;
        atomic_swap = record { public_inputs_a = leg_a; public_inputs_b = leg_b };
        burn = burn;
        expected_roots = map (fr_to_hex F) roots;
      };
      manifest = record {
        schema = manifest_schema;
        bond_id = bond_id;
        bond_id_string = bond_id_string;
        maturity_date = maturity_date;
        leaf_counts_after_each_call = leaf_counts;
        call_order = call_order;
        entries = accounted.0;
      };
      records = accounted.1;
    }

  unfoldable pub generate : (Text → B256) → Result GeneratedFixtures
  generate keccak256 = generate_with_maturity keccak256 default_maturity_date
