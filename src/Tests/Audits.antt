-- ===== src/Tests/Audits.antt =====
-- An audit that passes, and audits that fail.
use graph_privacy_showcase_d.Common.{
  ℕ, Bool, true, false, Option, none, some, List, [], ◌∷◌, ◌≡◌, refl, arith, Result, ok, err, All,
}
use graph_privacy_showcase_d.Common.Text.{
  Text, codes, text_eq, strip_prefix, trim, trim_start_matches, strip_copies, is_whitespace,
  drop_while, drop_while_end, is_ascii_hexdigit, is_ascii_digit, parse_u64, parse_uint,
  parse_digits, decimal, decimal_digits,
}
use graph_privacy_showcase_d.Common.BTreeMap.{
  BTreeMap, nat_ord, get, insert, contains_key, first_gap,
}
use graph_privacy_showcase_d.Field.{
  clean_hex, unwrap_fr, fr_from_biguint, fr_from_hex, fr_from_u64, fr_to_bytes32, fr_to_hex,
  normalize_bytes32_hex, note_commitment,
}
use graph_privacy_showcase_d.Field.Codec.{hex_value, hex_value_from}
use graph_privacy_showcase_d.Merkle.{next_level, reduce, build_merkle_root, root_history}
use graph_privacy_showcase_d.Json.{carries_errors}
use graph_privacy_showcase_d.Anchors.Parse.{check_pages, parse_anchor_set}
use graph_privacy_showcase_d.Anchors.Ordered.{
  index_commitments, check_contiguous, ordered_commitments, insert_by_id, sort_by_id, counts_from,
  leaf_counts_after_each_call,
}
use graph_privacy_showcase_d.Records.{
  recompute_commitment, check_class, check_entries, check_seen, check_internal_consistency,
}
use graph_privacy_showcase_d.Records.Manifest.{
  load, load_record, load_entry, load_entries, load_records,
}
use graph_privacy_showcase_d.Attestation.Offline.{
  check_response, check_request, check_deployment, recover, check_recovery, all_checks,
  verify_offline,
}
use graph_privacy_showcase_d.Reconcile.Checks.{
  served_from, check_record, check_entry, check_records, expected_value, expected_from,
  unaccounted_in, missing_in, account, known_on, check_root, check_roots, cross_check,
}
use graph_privacy_showcase_d.Reconcile.Run.{replay_roots, optional_cross_check, reconcile}
use graph_privacy_showcase_d.Session.Audit.{
  load_bundle, contract_address, open_chain, audit, tamper_resigned, inputs_of, report_passed,
}
use graph_privacy_showcase_d.Tamper.{
  split_after, rotate_digit, rotate_first, alter_one_response_byte, trim_quotes, alter_commitment,
  alter_first, alter_a_served_commitment, resign_altered_anchors,
}
use graph_privacy_showcase_d.Reconcile.{ReconcileReport, ReconcileInputs, ChainReader}
use graph_privacy_showcase_d.Session.Outcome.{is_pass→≡, tamper_resigned_caught}
use graph_privacy_showcase_d.Anchors.{AnchorSet, CommitmentEntity}
use graph_privacy_showcase_d.Attestation.{pass, fail}
use graph_privacy_showcase_d.Reconcile.Complete.{reconcile_pass_complete}
use graph_privacy_showcase_d.Records.{DisclosedRecord}
use graph_privacy_showcase_d.Reconcile.Soundness.{Reconciled, reconcile_pass_sound}
use graph_privacy_showcase_d.Reconcile.Tampering.{
  IsStored, altered_record_fails, unexplained_anchor_fails, cross_check_sound,
}
use graph_privacy_showcase_d.Tests.{test_field}
use graph_privacy_showcase_d.Tests.World.{
  test_system, test_args, test_manifest, test_bundle, test_record, test_chain, test_parse_b256,
  served_set, set_of, commitment, call, five_text, six_text, entry_at, texts_differ,
}
use native.Mathlib.Decide.{dec_lt}

abbrev passes : Result ReconcileReport → Bool
passes (ok report) = report_passed report
passes (err e) = false

passed_report :
    (r : Result ReconcileReport)
    → passes r ≡ true
    → (report : ReconcileReport) × (r ≡ ok report) × (report_passed report ≡ true)
passed_report (ok report) h = (report, refl, h)
passed_report (err e) h = absurd (cc)

abbrev is_ok : Result ReconcileReport → Bool
is_ok (ok report) = true
is_ok (err e) = false

completed :
    (r : Result ReconcileReport) → is_ok r ≡ true → (report : ReconcileReport) × (r ≡ ok report)
completed (ok report) h = (report, refl)
completed (err e) h = absurd (cc)

-- The audit's inputs with other anchors, other records, or both.
abbrev inputs : AnchorSet → DisclosedRecord → ReconcileInputs
inputs set r = inputs_of test_system test_args set test_manifest ((0, r) ∷ []) test_bundle

abbrev honest : ReconcileInputs
honest = inputs (served_set (codes "0x5")) test_record

-- The issuer's story with one more dollar.
abbrev dearer : DisclosedRecord
dearer = record test_record { value = 2 }

abbrev altered : ReconcileInputs
altered = inputs (served_set (codes "0x5")) dearer

-- A second anchor that no manifest entry explains.
abbrev second_anchor : AnchorSet
second_anchor =
    set_of (commitment (codes "0") (codes "0x5") ∷ commitment (codes "1") (codes "0x7") ∷ [])
      (call (codes "0x1") (codes "1") ∷ [])

abbrev unexplained : ReconcileInputs
unexplained = inputs second_anchor test_record

abbrev run : ReconcileInputs → Option ChainReader → Bool → Result ReconcileReport
run inputs chain verify = reconcile test_field test_parse_b256 inputs chain verify

runs :
    (passes (audit test_system test_args true test_bundle) ≡ true)
    × (passes (run honest (some test_chain) true) ≡ true)
    × (is_ok (run altered (some test_chain) false) ≡ true)
    × (is_ok (run unexplained (some test_chain) false) ≡ true)
    × (is_ok (run honest none false) ≡ true)
    × (tamper_resigned test_system test_args (codes "0xb") test_bundle test_manifest ≡ ok true)
    × (ordered_commitments altered.anchor_set ≡ ok altered.anchor_set.commitments)
    × (served_from test_field 0 altered.anchor_set.commitments ≡ ok ((0, five_text) ∷ []))
    × (recompute_commitment test_field dearer ≡ ok six_text)
    × (get 0 altered.records ≡ some dearer)
    × (leaf_counts_after_each_call honest.anchor_set ≡ ok (1 ∷ []))
unfolding text_eq strip_prefix trim trim_start_matches strip_copies is_whitespace drop_while
    drop_while_end is_ascii_hexdigit is_ascii_digit parse_u64 parse_uint parse_digits decimal
    decimal_digits get insert contains_key first_gap clean_hex unwrap_fr fr_from_biguint fr_from_hex
    fr_from_u64 fr_to_bytes32 fr_to_hex normalize_bytes32_hex note_commitment hex_value
    hex_value_from next_level reduce build_merkle_root root_history carries_errors check_pages
    parse_anchor_set index_commitments check_contiguous ordered_commitments insert_by_id sort_by_id
    counts_from leaf_counts_after_each_call recompute_commitment check_class check_entries
    check_seen check_internal_consistency load load_record load_entry load_entries load_records
    check_response check_request check_deployment recover check_recovery all_checks verify_offline
    served_from check_record check_entry check_records expected_value expected_from unaccounted_in
    missing_in account known_on check_root check_roots cross_check replay_roots optional_cross_check
    reconcile load_bundle contract_address open_chain audit tamper_resigned split_after rotate_digit
    rotate_first alter_one_response_byte trim_quotes alter_commitment alter_first
    alter_a_served_commitment resign_altered_anchors dec_lt
runs = (refl, refl, refl, refl, refl, refl, refl, refl, refl, refl, refl)

pub audit_run :
    (report : ReconcileReport) × (audit test_system test_args true test_bundle ≡ ok report)
    × (report_passed report ≡ true)
audit_run = passed_report (audit test_system test_args true test_bundle) runs.0

tamper_resigned_caught_example : true ≡ true
tamper_resigned_caught_example =
    tamper_resigned_caught test_system test_args (codes "0xb") test_bundle test_manifest true runs.5

abbrev honest_run :
    (report : ReconcileReport) × (run honest (some test_chain) true ≡ ok report)
    × (report_passed report ≡ true)
honest_run = passed_report (run honest (some test_chain) true) runs.1

reconcile_pass_sound_example : Reconciled test_field test_parse_b256 honest (some test_chain)
reconcile_pass_sound_example =
    reconcile_pass_sound test_field test_parse_b256 honest (some test_chain) true honest_run.0
      honest_run.1 (is_pass→≡ honest_run.0.result honest_run.2)

honest_reconciled : Reconciled test_field test_parse_b256 honest (some test_chain)
honest_reconciled =
    reconcile_pass_sound test_field test_parse_b256 honest (some test_chain) true honest_run.0
      honest_run.1 (is_pass→≡ honest_run.0.result honest_run.2)

reconcile_pass_complete_example :
    (report : ReconcileReport) × (run honest (some test_chain) false ≡ ok report)
    × (report.result ≡ pass)
unfolding optional_cross_check
reconcile_pass_complete_example =
    reconcile_pass_complete test_field test_parse_b256 honest (some test_chain) false
      honest_reconciled (none, []) refl refl

cross_check_sound_example :
    (ordered : List CommitmentEntity) × (served : BTreeMap ℕ Text) × (ordered_commitments
        honest.anchor_set
      ≡ ok ordered)
    × (served_from test_field 0 ordered ≡ ok served)
    × All (λ e. IsStored test_field test_chain e.0 e.1) served
cross_check_sound_example =
    cross_check_sound test_field test_parse_b256 test_chain honest honest_run.0 honest_run.1
      (is_pass→≡ honest_run.0.result honest_run.2)

abbrev altered_run : (report : ReconcileReport) × (run altered (some test_chain) false ≡ ok report)
altered_run = completed (run altered (some test_chain) false) runs.2

not_five : ¬ (five_text ≡ six_text)
unfolding text_eq
not_five = texts_differ five_text six_text refl

altered_record_fails_example : altered_run.0.result ≡ fail
altered_record_fails_example =
    altered_record_fails test_field test_parse_b256 altered false altered_run.0 (some test_chain)
      altered.anchor_set.commitments ((0, five_text) ∷ []) [] [] (entry_at 0 five_text)
      (codes "a.json") six_text dearer altered_run.1 runs.6 runs.7 refl refl runs.9 runs.8
      (λ h. not_five h.0)

abbrev unexplained_run :
    (report : ReconcileReport) × (run unexplained (some test_chain) false ≡ ok report)
unexplained_run = completed (run unexplained (some test_chain) false) runs.3

unexplained_anchor_fails_example : unexplained_run.0.result ≡ fail
unexplained_anchor_fails_example =
    unexplained_anchor_fails test_field test_parse_b256 unexplained false unexplained_run.0
      (some test_chain) 1 unexplained_run.1 (omega arith) ((λ h. omega arith), tt)

abbrev unanchored_run : (report : ReconcileReport) × (run honest none false ≡ ok report)
unanchored_run = completed (run honest none false) runs.4
