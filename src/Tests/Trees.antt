-- ===== src/Tests/Trees.antt =====
-- Small trees.
use graph_privacy_showcase_d.Common.{List, [], ◌∷◌, ◌≡◌, ◌⊎◌, refl, arith, ok}
use graph_privacy_showcase_d.Merkle.{next_level, reduce, build_merkle_root, root_history}
use graph_privacy_showcase_d.Field.{hash_pair}
use graph_privacy_showcase_d.Merkle.Spec.{tree, build_merkle_root-eq-tree, build_merkle_root_total}
use graph_privacy_showcase_d.Merkle.Binding.{Collision, build_merkle_root_binding}
use graph_privacy_showcase_d.Merkle.History.{root_history_prefix}
use graph_privacy_showcase_d.Tests.{Element, test_field, test_laws, below_modulus}

abbrev one : Element
one = (1, below_modulus 1 refl)

abbrev two : Element
two = (2, below_modulus 2 refl)

abbrev three : Element
three = (3, below_modulus 3 refl)

abbrev leaves : List Element
leaves = one ∷ two ∷ three ∷ []

abbrev swapped : List Element
swapped = two ∷ one ∷ three ∷ []

build_merkle_root-eq-tree_example :
    build_merkle_root test_field leaves ≡ ok (tree test_field one 2 leaves)
build_merkle_root-eq-tree_example =
    build_merkle_root-eq-tree test_field one (two ∷ three ∷ []) 2 (omega arith, omega arith)

build_merkle_root_total_example : (root : Element) × (build_merkle_root test_field leaves ≡ ok root)
build_merkle_root_total_example = build_merkle_root_total test_field leaves (omega arith)

build_merkle_root_binding_example : (leaves ≡ swapped) ⊎ Collision test_field leaves swapped
unfolding build_merkle_root reduce next_level hash_pair
build_merkle_root_binding_example =
    build_merkle_root_binding test_field test_laws leaves swapped _ refl refl refl

root_history_prefix_example :
    root_history test_field (one ∷ two ∷ three ∷ []) (2 ∷ [])
    ≡ root_history test_field (one ∷ two ∷ one ∷ two ∷ []) (2 ∷ [])
root_history_prefix_example =
    root_history_prefix test_field 2 (one ∷ two ∷ three ∷ []) (one ∷ two ∷ one ∷ two ∷ []) (2 ∷ [])
      refl (omega arith) (omega arith) ((omega arith, omega arith), tt)
