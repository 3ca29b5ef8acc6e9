-- ===== src/Records.antt =====
-- records.rs of items/01-private-bond-replay/src/replay/src: the disclosed records and the manifest
-- that accounts for them.
pub mod Manifest
pub mod Laws
pub mod Loading
use graph_privacy_showcase_d.Common.{
  ℕ, Bool, true, false, Option, none, some, List, [], ◌∷◌, ◌++◌, Result, ok, err, ◌>>=◌, ◌>>◌,
  bail_if, context, is_some, not, leaf_index_twice, no_record_file, names_record_file,
  manifest_not_contiguous,
}
use graph_privacy_showcase_d.Common.Text.{Text, codes, text_eq}
use graph_privacy_showcase_d.Common.BTreeMap.{BTreeMap, nat_ord, get, insert, keys, first_gap}
use graph_privacy_showcase_d.Field.{
  FieldOps, fr_from_hex, fr_to_hex, normalize_bytes32_hex, note_commitment,
}

pub record DisclosedRecord : Type 0 where
  pub commitment : Text
  pub nullifier : Text
  pub value : ℕ
  pub salt : ℕ
  pub owner : Text
  pub asset_id : ℕ
  pub maturity_date : ℕ
  pub created_at : Text

pub data AccountingClass : Type 0 where
  disclosed burn_output_zero : AccountingClass

pub record ManifestEntry : Type 0 where
  pub leaf_index : ℕ
  pub class : AccountingClass
  pub record_file : Option Text
  pub commitment : Text
  pub source_function : Text
  pub note : Text

pub record RecordsManifest : Type 0 where
  pub schema : Text
  pub bond_id : Text
  pub bond_id_string : Text
  pub maturity_date : ℕ
  pub leaf_counts_after_each_call : List ℕ
  pub call_order : List Text
  pub entries : List ManifestEntry

module _ (F : FieldOps) where
  unfoldable pub recompute_commitment : DisclosedRecord → Result Text
  recompute_commitment r = do
    owner ← fr_from_hex F r.owner
    c ← note_commitment F r.value r.salt owner r.asset_id r.maturity_date
    ok (fr_to_hex F c)

  unfoldable pub claim_is_self_consistent : DisclosedRecord → Result Bool
  claim_is_self_consistent r = do
    claimed ← normalize_bytes32_hex F r.commitment
    recomputed ← recompute_commitment r
    ok (text_eq claimed recomputed)

-- The match on the class in the loop of `check_internal_consistency`.
unfoldable pub check_class : ManifestEntry → AccountingClass → Result (Unit {0})
check_class entry disclosed =
    bail_if (not (is_some entry.record_file)) (no_record_file entry.leaf_index)
check_class entry burn_output_zero =
    bail_if (is_some entry.record_file) (names_record_file entry.leaf_index)

unfoldable pub check_entries :
    List ManifestEntry → BTreeMap ℕ (Unit {0}) → Result (BTreeMap ℕ (Unit {0}))
check_entries [] seen = ok seen
check_entries (entry ∷ entries) seen = do
  bail_if (is_some (get entry.leaf_index seen)) (leaf_index_twice entry.leaf_index)
  check_class entry entry.class
  check_entries entries (insert entry.leaf_index tt seen)

unfoldable pub check_seen : BTreeMap ℕ (Unit {0}) → Result (Unit {0})
check_seen seen = elim (first_gap 0 (keys seen)) [
  | none ↦ ok tt
  | some (position, leaf_index) ↦ err (manifest_not_contiguous leaf_index position)
]

unfoldable pub check_internal_consistency : RecordsManifest → Result (Unit {0})
check_internal_consistency manifest = do seen ← check_entries manifest.entries []; check_seen seen
