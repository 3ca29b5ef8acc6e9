-- ===== src/Fixtures.antt =====
-- fixtures.rs of items/01-private-bond-replay/src/replay/src: the data of the seed fixtures and the eight
-- notes of the lifecycle. `generate_with_maturity` stands in `Generate`, `write_to` in `Write`.
pub mod Generate
pub mod Made
pub mod Whole
pub mod Spent
pub mod Write
pub mod Files
pub mod Written
pub mod Loaded
pub mod Reconciled
use graph_privacy_showcase_d.Common.{ℕ, ◌+◌, Bool, List, [], ◌∷◌, Result, ok, ◌>>=◌}
use graph_privacy_showcase_d.Common.Text.{Text, codes}
use graph_privacy_showcase_d.Field.{FieldOps, fr_from_u64, note_commitment, owner_from_private_key}
use graph_privacy_showcase_d.Records.{
  DisclosedRecord, AccountingClass, disclosed, burn_output_zero, RecordsManifest,
}

abbrev pub fixture_genesis_ts : ℕ
fixture_genesis_ts = 1893456000

abbrev pub maturity_offset_secs : ℕ
maturity_offset_secs = 3600

abbrev pub default_maturity_date : ℕ
default_maturity_date = fixture_genesis_ts + maturity_offset_secs

abbrev pub bond_id_string : Text
bond_id_string = codes "XF0000000001"

abbrev pub asset_id : ℕ
asset_id = 1

abbrev pub issuer_pk : ℕ
issuer_pk = 1001

abbrev pub investor_a_pk : ℕ
investor_a_pk = 2002

abbrev pub investor_b_pk : ℕ
investor_b_pk = 3003

abbrev pub fixture_created_at : Text
fixture_created_at = codes "2030-01-01T00:00:00Z"

abbrev pub proof_placeholder_hex : Text
proof_placeholder_hex =
    codes "0x6e6f742d612d70726f6f662d706c616365686f6c6465722d666f722d6d6f636b566572696669657200"

pub record MintArgs : Type 0 where
  pub commitment : Text

pub record MintBatchArgs : Type 0 where
  pub commitments : List Text

pub record JoinSplitArgs : Type 0 where
  pub root : Text
  pub nullifiers_in : List Text
  pub commitments_out : List Text

pub record AtomicSwapArgs : Type 0 where
  pub public_inputs_a : List Text
  pub public_inputs_b : List Text

pub record Lifecycle : Type 0 where
  pub schema : Text
  pub bond_id_string : Text
  pub bond_id : Text
  pub maturity_date : ℕ
  pub fixture_genesis_timestamp : ℕ
  pub proof_placeholder : Text
  pub proof_bytes_are_placeholders : Bool
  pub mint : MintArgs
  pub mint_batch : MintBatchArgs
  pub transfer : JoinSplitArgs
  pub atomic_swap : AtomicSwapArgs
  pub burn : JoinSplitArgs
  pub expected_roots : List Text

abbrev pub lifecycle_schema : Text
lifecycle_schema = codes "bond-replay/lifecycle/1"

pub record GeneratedFixtures : Type 0 where
  pub lifecycle : Lifecycle
  pub manifest : RecordsManifest
  pub records : List (Text × DisclosedRecord)

module _ (F : FieldOps) where
  open F use {Fr}

  pub record Actor : Type 0 where
    pub private_key : Fr
    pub owner : Fr

  unfoldable pub new_actor : ℕ → Result Actor
  new_actor pk = do
    private_key ← fr_from_u64 F pk
    ok (record { private_key = private_key; owner = owner_from_private_key F private_key })

  pub record Leaf : Type 0 where
    pub index : ℕ
    pub value : ℕ
    pub salt : ℕ
    pub owner : Fr
    pub owner_label : Text
    pub source_function : Text
    pub class : AccountingClass
    pub note : Text

  -- `Leaf::commitment`
  unfoldable pub leaf_commitment : ℕ → Leaf → Result Fr
  leaf_commitment maturity_date leaf =
      note_commitment F leaf.value leaf.salt leaf.owner asset_id maturity_date

  abbrev pub leaves : Actor → Actor → Actor → List Leaf
  leaves issuer a b =
      record {
        index = 0;
        value = 100000000;
        salt = 1000001;
        owner = issuer.owner;
        owner_label = codes "issuer";
        source_function = codes "MINT";
        class = disclosed;
        note = codes "Global note tranche, 100,000,000 par. Minted by the issuer.";
      }
      ∷ record {
        index = 1;
        value = 0;
        salt = 1000002;
        owner = issuer.owner;
        owner_label = codes "issuer";
        source_function = codes "MINT_BATCH";
        class = disclosed;
        note =
            codes
              "Zero-value auxiliary note; the second join-split input the contract's 2-in shape requires.";
      }
      ∷ record {
        index = 2;
        value = 10000000;
        salt = 2000001;
        owner = a.owner;
        owner_label = codes "investor-a";
        source_function = codes "TRANSFER";
        class = disclosed;
        note = codes "Investor A's holding after the primary allocation.";
      }
      ∷ record {
        index = 3;
        value = 90000000;
        salt = 2000002;
        owner = issuer.owner;
        owner_label = codes "issuer";
        source_function = codes "TRANSFER";
        class = disclosed;
        note = codes "Issuer change note from the primary allocation.";
      }
      ∷ record {
        index = 4;
        value = 10000000;
        salt = 3000001;
        owner = b.owner;
        owner_label = codes "investor-b";
        source_function = codes "ATOMIC_SWAP";
        class = disclosed;
        note = codes "Investor B's holding after the secondary trade leg.";
      }
      ∷ record {
        index = 5;
        value = 90000000;
        salt = 3000002;
        owner = issuer.owner;
        owner_label = codes "issuer";
        source_function = codes "ATOMIC_SWAP";
        class = disclosed;
        note = codes "Issuer change note refreshed by the swap's second leg.";
      }
      ∷ record {
        index = 6;
        value = 0;
        salt = 4000001;
        owner = b.owner;
        owner_label = codes "investor-b";
        source_function = codes "BURN";
        class = burn_output_zero;
        note =
            codes
              "Zero-value burn output. Structural artefact of the 2-out shape, not a disclosed record.";
      }
      ∷ record {
        index = 7;
        value = 0;
        salt = 4000002;
        owner = issuer.owner;
        owner_label = codes "issuer";
        source_function = codes "BURN";
        class = burn_output_zero;
        note =
            codes
              "Zero-value burn output. Structural artefact of the 2-out shape, not a disclosed record.";
      }
      ∷ []
