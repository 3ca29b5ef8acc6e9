-- ===== src/Reconcile/Checks.antt =====
-- The checks of `reconcile` (reconcile.rs), one function for each loop. Each returns its part of the
-- report and the failures that it pushes, in their order.
use graph_privacy_showcase_d.Common.{
  ℕ, ◌+◌, Bool, true, false, not, ◌&&◌, Option, none, some, List, [], ◌∷◌, ◌++◌, if◌then◌else◌,
  length, get_elem?, count_where, keep_where, is_empty, Result, ok, ◌>>=◌, context,
  no_loaded_record, root_not_32_bytes,
}
use graph_privacy_showcase_d.Common.Text.{Text, codes, text_eq}
use graph_privacy_showcase_d.Common.BTreeMap.{BTreeMap, nat_ord, get, insert, contains_key, keys}
use graph_privacy_showcase_d.Field.{FieldOps, fr_to_hex, normalize_bytes32_hex}
use graph_privacy_showcase_d.Anchors.{CommitmentEntity}
use graph_privacy_showcase_d.Records.{
  DisclosedRecord, AccountingClass, disclosed, burn_output_zero, ManifestEntry,
  recompute_commitment,
}
use graph_privacy_showcase_d.Attestation.{B256, CheckOutcome, pass, fail, is_fail}
use graph_privacy_showcase_d.Reconcile.{
  RecordDetail, matches, not_served, differs, manifest_disagrees, RecordCheck, AccountingDetail,
  cover_each_other, do_not_cover, RootDetail, in_known_roots, no_rpc_endpoint, not_in_known_roots,
  AnchorAccounting, CallLabel, named, call_number, RootCheck, OnChainCrossCheck, Failure,
  manifest_record_mismatch, leaf_not_reconciled, accounting_failed, root_not_replayed,
  served_not_stored, ChainReader,
}

-- The outcome of a test.
abbrev pub outcome_of : Bool → CheckOutcome
outcome_of true = pass
outcome_of false = fail

abbrev pub push_if : Bool → Failure → List Failure
push_if true failure = failure ∷ []
push_if false failure = []

abbrev pub option_text_eq : Option Text → Text → Bool
option_text_eq none t = false
option_text_eq (some s) t = text_eq s t

-- `expected.get(idx) != Some(served)` and the two counts of the accounting.
abbrev pub is_disclosed : ManifestEntry → Bool
is_disclosed entry = elim entry.class [ disclosed ↦ true | burn_output_zero ↦ false ]

module _ (F : FieldOps) where
  open F use {Fr, hex_encode}

  -- The served values by their index, which `enumerate` gives in order.
  unfoldable pub served_from : ℕ → List CommitmentEntity → Result (BTreeMap ℕ Text)
  served_from i [] = ok []
  served_from i (c ∷ cs) = do
    value ← normalize_bytes32_hex F c.value
    rest ← served_from (i + 1) cs
    ok ((i, value) ∷ rest)

  abbrev record_detail : Option Text → Text → RecordDetail
  record_detail none recomputed = not_served
  record_detail (some value) recomputed =
      if text_eq value recomputed then matches else differs recomputed value

  module _ (served_by_index : BTreeMap ℕ Text) (records : BTreeMap ℕ DisclosedRecord) where
    -- The body of the first loop for an entry that names a record file.
    unfoldable pub check_record : ManifestEntry → Text → Result (RecordCheck × List Failure)
    check_record entry file = do
      r ← context (no_loaded_record entry.leaf_index) (get entry.leaf_index records)
      recomputed ← recompute_commitment F r
      let served = get entry.leaf_index served_by_index
      let agrees = text_eq entry.commitment recomputed
      let matched = option_text_eq served recomputed
      ok (
        record {
          leaf_index = entry.leaf_index;
          record_file = file;
          value = r.value;
          owner = r.owner;
          recomputed_commitment = recomputed;
          served_commitment = served;
          outcome = outcome_of matched;
          detail =
              if agrees
              then record_detail served recomputed
              else manifest_disagrees (record_detail served recomputed);
        },
        push_if (not agrees) (manifest_record_mismatch entry.leaf_index entry.commitment recomputed)
            ++ push_if (not matched) (leaf_not_reconciled entry.leaf_index file),
      )

    -- An entry that names no file is skipped.
    unfoldable pub check_entry :
        ManifestEntry → Option Text → Result (List RecordCheck × List Failure)
    check_entry entry none = ok ([], [])
    check_entry entry (some file) = do
      checked ← check_record entry file
      ok (checked.0 ∷ [], checked.1)

    unfoldable pub check_records : List ManifestEntry → Result (List RecordCheck × List Failure)
    check_records [] = ok ([], [])
    check_records (entry ∷ entries) = do
      here ← check_entry entry entry.record_file
      rest ← check_records entries
      ok (here.0 ++ rest.0, here.1 ++ rest.1)

    unfoldable pub expected_value : ManifestEntry → AccountingClass → Result Text
    expected_value entry disclosed = do
      r ← context (no_loaded_record entry.leaf_index) (get entry.leaf_index records)
      recompute_commitment F r
    expected_value entry burn_output_zero = normalize_bytes32_hex F entry.commitment

    unfoldable pub expected_from : List ManifestEntry → BTreeMap ℕ Text → Result (BTreeMap ℕ Text)
    expected_from [] expected = ok expected
    expected_from (entry ∷ entries) expected = do
      value ← expected_value entry entry.class
      expected_from entries (insert entry.leaf_index value expected)

-- The served entries that the disclosure cannot account for, and the disclosed leaves not served.
unfoldable pub unaccounted_in : BTreeMap ℕ Text → BTreeMap ℕ Text → List ℕ
unaccounted_in expected [] = []
unaccounted_in expected ((idx, served) ∷ rest) =
    if option_text_eq (get idx expected) served
    then unaccounted_in expected rest
    else idx ∷ unaccounted_in expected rest

unfoldable pub missing_in : BTreeMap ℕ Text → BTreeMap ℕ Text → List ℕ
missing_in served expected = keep_where (λ idx. not (contains_key idx served)) (keys expected)

abbrev accounting_detail : Bool → AccountingDetail
accounting_detail true = cover_each_other
accounting_detail false = do_not_cover

unfoldable pub account :
    BTreeMap ℕ Text → BTreeMap ℕ Text → List ManifestEntry → AnchorAccounting × List Failure
account served expected entries =
    let unaccounted = unaccounted_in expected served in
    let missing = missing_in served expected in
    let accounting_ok = is_empty unaccounted && is_empty missing in
    (
      record {
        served_leaf_count = length served;
        disclosed_count = count_where is_disclosed entries;
        burn_output_zero_count = count_where (λ e. not (is_disclosed e)) entries;
        unaccounted_leaf_indices = unaccounted;
        missing_leaf_indices = missing;
        outcome = outcome_of accounting_ok;
        detail = accounting_detail accounting_ok;
      },
      push_if (not accounting_ok) (accounting_failed (length unaccounted) (length missing)),
    )

abbrev root_detail : CallLabel → Option Bool → RootDetail
root_detail label none = no_rpc_endpoint
root_detail label (some true) = in_known_roots
root_detail label (some false) = not_in_known_roots label

abbrev pub call_label : Option Text → ℕ → CallLabel
call_label none i = call_number i
call_label (some name) i = named name

-- The crate `alloy`: `text.parse::<B256>()`.
module _ (F : FieldOps) (parse_b256 : Text → Option B256) where
  open F use {Fr, hex_encode}

  -- Whether the chain knows the root; `none` without an endpoint.
  unfoldable pub known_on : Option ChainReader → Text → Result (Option Bool)
  known_on none rebuilt = ok none
  known_on (some reader) rebuilt = do
    bytes ← context (root_not_32_bytes rebuilt) (parse_b256 rebuilt)
    known ← reader.is_known_root bytes
    ok (some known)

  abbrev pub root_outcome : Option Bool → CheckOutcome
  root_outcome none = fail
  root_outcome (some known) = outcome_of known

  -- The body of the loop over the roots, after the `i`-th call.
  unfoldable pub check_root :
      Option ChainReader → List Text → ℕ → ℕ → Fr → Result (RootCheck × List Failure)
  check_root chain call_order i count root = do
    let rebuilt = fr_to_hex F root
    let label = call_label (get_elem? call_order i) i
    known ← known_on chain rebuilt
    ok (
      record {
        after_call = label;
        leaf_count = count;
        rebuilt_root = rebuilt;
        known_on_chain = known;
        outcome = root_outcome known;
        detail = root_detail label known;
      },
      push_if (is_fail (root_outcome known)) (root_not_replayed label count),
    )

  -- `root_history` returns one root for each count.
  unfoldable pub check_roots :
      Option ChainReader → List Text → ℕ → List ℕ → List Fr → Result (List RootCheck × List Failure)
  check_roots chain call_order i (count ∷ counts) (root ∷ roots) = do
    here ← check_root chain call_order i count root
    rest ← check_roots chain call_order (i + 1) counts roots
    ok (here.0 ∷ rest.0, here.1 ++ rest.1)
  check_roots chain call_order i _ _ = ok ([], [])

  -- The body of the loop of the cross-check.
  unfoldable pub cross_check :
      ChainReader → BTreeMap ℕ Text → Result (List OnChainCrossCheck × List Failure)
  cross_check reader [] = ok ([], [])
  cross_check reader ((idx, served) ∷ rest) = do
    stored ← reader.commitment_at idx
    let stored_hex = codes "0x" ++ hex_encode stored
    let same = text_eq stored_hex served
    later ← cross_check reader rest
    ok (
      record { leaf_index = idx; served = served; on_chain = stored_hex; outcome = outcome_of same }
          ∷ later.0,
      push_if (not same) (served_not_stored idx served stored_hex) ++ later.1,
    )
