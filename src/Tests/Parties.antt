-- ===== src/Tests/Parties.antt =====
-- Attestations, their alterations, and answers of several parties.
use graph_privacy_showcase_d.Common.{
  ◌≤◌, true, Option, none, some, List, [], ◌∷◌, ◌++◌, ◌≡◌, ◌≢◌, ◌↔◌, ◌⊎◌, refl, ok, length,
}
use graph_privacy_showcase_d.Common.Text.{
  Text, codes, text_eq, strip_prefix, is_ascii_digit, is_ascii_hexdigit, drop_while, drop_while_end,
  to_lowercase, lower_char,
}
use graph_privacy_showcase_d.Common.BTreeMap.{nat_ord, text_ord}
use graph_privacy_showcase_d.Json.{carries_errors, HasNoErrors}
use graph_privacy_showcase_d.Records.{DisclosedRecord}
use graph_privacy_showcase_d.Attestation.{AuditBundle, pass, passed}
use graph_privacy_showcase_d.Attestation.Offline.{
  check_response, check_request, check_deployment, recover, check_recovery, all_checks,
  verify_offline, IsBound, verify_offline_iff,
}
use graph_privacy_showcase_d.Attestation.Signer.{
  ResolvedSigner, IsStaked, is_zero_stake, read_allocation, parse_allocation_response,
  parse_allocation_response_sound,
}
use graph_privacy_showcase_d.Consistency.{
  Collected, targeted_per_indexer, bodies, build_report, distinct_indexers,
}
use graph_privacy_showcase_d.Consistency.Distinct.{parties, length-distinct_indexers-parties}
use graph_privacy_showcase_d.Consistency.Agreement.{
  AllSame, SignedBy, indexer_count, build_report_pass_iff,
}
use graph_privacy_showcase_d.Reconcile.Checks.{account}
use graph_privacy_showcase_d.Reconcile.Accounting.{SameMap, account_pass_iff}
use graph_privacy_showcase_d.Tamper.{
  value_field, alter_field, alter_record, split_after, rotate_digit, rotate_first, marker,
  alter_one_response_byte, trim_quotes, alter_commitment, alter_first, alter_a_served_commitment,
  resign_altered_anchors,
}
use graph_privacy_showcase_d.Tamper.Flip.{Rotated, alter_one_response_byte_sound}
use graph_privacy_showcase_d.Tamper.Records.{AlteredAs, alter_record_sound}
use graph_privacy_showcase_d.Tamper.Resigned.{resigned_passes}
use graph_privacy_showcase_d.Session.Audit.{tamper_byte}
use graph_privacy_showcase_d.Session.Altered.{tamper_byte_caught}
use graph_privacy_showcase_d.Tests.{test_field}
use graph_privacy_showcase_d.Tests.World.{
  test_json, test_edit, test_attestations, test_create, test_bundle, test_system, test_args,
  test_domain, test_record, five_text, entry_at, texts_differ,
}

verify_offline_iff_example :
    (passed (verify_offline test_attestations test_bundle test_domain) ≡ true)
    ↔ IsBound test_attestations test_bundle test_domain
verify_offline_iff_example = verify_offline_iff test_attestations test_bundle test_domain

-- A bundle whose response has a value in hexadecimal digits.
abbrev quoted : AuditBundle
quoted = record {
  schema = [];
  request = codes "{}";
  response = codes "{\"value\":\"0x5a\"}";
  attestation =
      test_attestations.create 1 (codes "0xa") (codes "Qm") (codes "{}")
        (codes "{\"value\":\"0x5a\"}");
  deployment = codes "Qm";
  endpoint = [];
  routed_indexer = none;
}

abbrev flipped : Text
flipped = codes "{\"value\":\"0x6a\"}"

abbrev dearer : DisclosedRecord
dearer = record test_record { value = 2 }

abbrev liar : AuditBundle
liar = record test_bundle {
  response = codes "0x6";
  attestation = test_attestations.create 1 (codes "0xb") (codes "Qm") (codes "{}") (codes "0x6");
  endpoint = test_bundle.endpoint ++ codes " (tampered: re-signed)";
}

-- Every field of the test's JSON is the text itself, so that a deployment's answer is its name.
abbrev signer : ResolvedSigner
signer = record {
  allocation = codes "Qm";
  indexer = codes "Qm";
  staked_tokens = codes "Qm";
  allocated_tokens = codes "Qm";
  status = codes "Qm";
  deployment = codes "Qm";
}

runs :
    (passed (verify_offline test_attestations quoted test_domain) ≡ true)
    × (alter_one_response_byte quoted.response ≡ ok flipped)
    × (alter_record test_field test_record value_field ≡ ok dearer)
    × (resign_altered_anchors test_json test_edit test_attestations test_bundle test_domain
          (codes "0xb")
        ≡ ok liar)
    × (parse_allocation_response test_json (codes "Qm") (codes "Qm") ≡ ok signer)
unfolding check_response check_request check_deployment recover check_recovery all_checks
    verify_offline text_eq split_after strip_prefix rotate_digit rotate_first
    alter_one_response_byte is_ascii_digit is_ascii_hexdigit alter_field alter_record trim_quotes
    drop_while drop_while_end alter_commitment alter_first alter_a_served_commitment
    resign_altered_anchors is_zero_stake read_allocation parse_allocation_response carries_errors
runs = (refl, refl, refl, refl, refl)

not_same : flipped ≢ quoted.response
unfolding text_eq
not_same = texts_differ flipped quoted.response refl

alter_one_response_byte_sound_example :
    (start : Text) × (rest : Text) × (rotated : Text) × (quoted.response
      ≡ (start ++ marker) ++ rest)
    × (flipped ≡ (start ++ marker) ++ rotated)
    × Rotated rest rotated
    × (flipped ≢ quoted.response)
alter_one_response_byte_sound_example = alter_one_response_byte_sound quoted.response flipped runs.1

alter_record_sound_example :
    AlteredAs test_field test_record value_field dearer × (dearer ≢ test_record)
alter_record_sound_example = alter_record_sound test_field test_record dearer value_field runs.2

resigned_passes_example :
    (alter_a_served_commitment test_json test_edit test_bundle.response ≡ ok liar.response)
    × (liar.request ≡ test_bundle.request)
    × (passed (verify_offline test_attestations liar test_domain) ≡ true)
resigned_passes_example =
    resigned_passes test_json test_edit test_attestations test_create test_bundle liar test_domain
      (codes "0xb") runs.3

parse_allocation_response_sound_example :
    (envelope : Text) × (allocation : Text) × (test_json.from_str (codes "Qm") ≡ some envelope)
    × HasNoErrors test_json envelope
    × (test_json.pointer envelope (codes "/data/allocation") ≡ some allocation)
    × IsStaked test_json allocation (codes "Qm") signer
parse_allocation_response_sound_example =
    parse_allocation_response_sound test_json (codes "Qm") (codes "Qm") signer runs.4

account_pass_iff_example :
    ((account ((0, five_text) ∷ []) ((0, five_text) ∷ []) (entry_at 0 five_text ∷ [])).0.outcome
      ≡ pass)
    ↔ SameMap ((0, five_text) ∷ []) ((0, five_text) ∷ [])
account_pass_iff_example =
    account_pass_iff ((0, five_text) ∷ []) ((0, five_text) ∷ []) (entry_at 0 five_text ∷ []) 1 refl

abbrev answer : Text → Option ResolvedSigner → Collected
answer allocation resolved = record {
  bundle = quoted;
  allocation = allocation;
  resolved = resolved;
}

abbrev answers : List Collected
answers = answer (codes "0xa") (some signer) ∷ answer (codes "0xb") none ∷ []

length-distinct_indexers-parties_example : length (distinct_indexers answers) ≡ parties [] answers
unfolding strip_prefix to_lowercase lower_char
length-distinct_indexers-parties_example = length-distinct_indexers-parties answers (refl, (tt, tt))

build_report_pass_iff_example :
    ((build_report
        (λ b. b)
        test_json
        text_eq
        (codes "Qm")
        9
        (codes "0xaa")
        targeted_per_indexer
        2
        answers).result
      ≡ pass)
    ↔ ((signers : List ResolvedSigner) × SignedBy answers signers
        × (2 ≤ indexer_count signers)
        × AllSame (bodies answers))
build_report_pass_iff_example =
    build_report_pass_iff (λ b. b) test_json text_eq (codes "Qm") (codes "0xaa") 9 2
      targeted_per_indexer answers

caught_run : tamper_byte test_system test_args quoted ≡ ok true
unfolding tamper_byte check_response check_request check_deployment recover check_recovery
    all_checks verify_offline text_eq split_after strip_prefix rotate_digit rotate_first
    alter_one_response_byte is_ascii_digit is_ascii_hexdigit
caught_run = refl

tamper_byte_caught_example :
    (true ≡ true)
    ⊎ ((response : Text) × (alter_one_response_byte quoted.response ≡ ok response)
        × (response ≢ quoted.response)
        × (test_attestations.keccak256 response ≡ test_attestations.keccak256 quoted.response))
tamper_byte_caught_example = tamper_byte_caught test_system test_args quoted true runs.0 caught_run
