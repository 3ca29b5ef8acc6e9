-- ===== src/Tests/Nodes.antt =====
-- A contract with two commitments.
use graph_privacy_showcase_d.Common.{ℕ, true, false, some, List, [], ◌∷◌, ◌≡◌, ok, get_elem?}
use graph_privacy_showcase_d.Common.Text.{codes}
use graph_privacy_showcase_d.Attestation.{B256}
use graph_privacy_showcase_d.Onchain.{Node, ChainReader, read_all_commitments}
use graph_privacy_showcase_d.Onchain.Storage.{StoredFrom, Stopped, read_all_commitments_sound}

abbrev test_node : Node
test_node = record {
  Address = ℕ;
  BlockId = ℕ;
  Provider = List B256;
  dial = λ url. some ((1 ∷ []) ∷ (2 ∷ []) ∷ []);
  get_block_number = λ provider. some 12;
  bond_id_of = λ provider contract block. some (codes "XF");
  commitments_of = λ provider contract block index. get_elem? provider index;
  known_roots_of = λ provider contract block root. some true;
  nullifiers_of = λ provider contract block nullifier. some false;
}

abbrev test_reader : ChainReader test_node
test_reader = record { provider = (1 ∷ []) ∷ (2 ∷ []) ∷ []; contract = 7; block = 9 }

read_all_commitments_sound_example :
    (values : List B256) × (read_all_commitments test_node test_reader 5 ≡ ok values)
    × StoredFrom test_node test_reader 0 values
    × Stopped test_node test_reader 0 6 values
read_all_commitments_sound_example = read_all_commitments_sound test_node test_reader 5
