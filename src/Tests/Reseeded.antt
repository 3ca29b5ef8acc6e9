-- ===== src/Tests/Reseeded.antt =====
-- The audit of the generated fixtures, over a chain that knows every root.
use graph_privacy_showcase_d.Common.{
  ℕ, true, false, Option, none, some, List, [], ◌∷◌, ◌≡◌, refl, All, if◌then◌else◌, ok, ◌+◌,
}
use graph_privacy_showcase_d.Common.Text.{
  Text, codes, text_eq, decimal, decimal_digits, parse_u64, parse_uint, parse_digits,
  is_ascii_digit,
}
use graph_privacy_showcase_d.Common.BTreeMap.{BTreeMap, nat_ord, get, insert, first_gap}
use graph_privacy_showcase_d.Anchors.{AnchorSet, CommitmentEntity}
use graph_privacy_showcase_d.Anchors.Ordered.{
  index_commitments, check_contiguous, ordered_commitments, insert_by_id, sort_by_id, counts_from,
  leaf_counts_after_each_call,
}
use graph_privacy_showcase_d.Attestation.{pass, OfflineVerification}
use graph_privacy_showcase_d.Reconcile.{ReconcileReport, ChainReader}
use graph_privacy_showcase_d.Reconcile.Run.{reconcile}
use graph_privacy_showcase_d.Records.{DisclosedRecord, ManifestEntry}
use graph_privacy_showcase_d.Records.Manifest.{Disk, load_record, load_records}
use graph_privacy_showcase_d.Fixtures.{default_maturity_date}
use graph_privacy_showcase_d.Fixtures.Loaded.{IsLoadable}
use graph_privacy_showcase_d.Fixtures.Reconciled.{reconcile-generate_with_maturity}
use graph_privacy_showcase_d.Tests.{test_field, test_laws}
use graph_privacy_showcase_d.Tests.World.{commitment, call, set_of}
use graph_privacy_showcase_d.Tests.Seeds.{same, seeds, is_u64, seeded}

-- A disk whose files hold their own names.
abbrev find_file : Text → List (Text × DisclosedRecord) → Option DisclosedRecord
find_file name [] = none
find_file name ((file, r) ∷ rest) = if text_eq name file then some r else find_file name rest

abbrev named_disk : Disk
named_disk = record {
  read_to_string = λ path. some path;
  join = λ dir file. file;
  manifest_from_str = λ s. some seeds.manifest;
  record_from_str = λ s. find_file s seeds.records;
}

abbrev Loadable : Text × DisclosedRecord → Type 0
Loadable = IsLoadable test_field test_laws default_maturity_date named_disk (codes "records")

loadable : All Loadable seeds.records
unfolding load_record text_eq decimal decimal_digits
loadable = (refl, (refl, (refl, (refl, (refl, (refl, tt))))))

abbrev anchors_of : ℕ → List ManifestEntry → List CommitmentEntity
anchors_of i [] = []
anchors_of i (entry ∷ rest) =
    commitment ((b'0' + i) ∷ []) entry.commitment ∷ anchors_of (i + 1) rest

abbrev seeded_set : AnchorSet
seeded_set = set_of (anchors_of 0 seeds.manifest.entries) (
    call (codes "0x1") (codes "1")
    ∷ call (codes "0x2") (codes "2")
    ∷ call (codes "0x3") (codes "4")
    ∷ call (codes "0x4") (codes "6")
    ∷ call (codes "0x5") (codes "8")
    ∷ [])

abbrev trusting_chain : ChainReader
trusting_chain = record { is_known_root = λ root. ok true; commitment_at = λ index. ok [] }

abbrev attested : OfflineVerification
attested = record {
  checks = [];
  recovered_allocation = some (codes "0xa");
  result = pass;
  means = [];
}

in_order :
    (ordered_commitments seeded_set ≡ ok seeded_set.commitments)
    × (leaf_counts_after_each_call seeded_set ≡ ok seeds.manifest.leaf_counts_after_each_call)
unfolding ordered_commitments index_commitments check_contiguous sort_by_id insert_by_id counts_from
    leaf_counts_after_each_call get insert first_gap parse_u64 parse_uint parse_digits
    is_ascii_digit
in_order = (refl, refl)

reconcile-generate_with_maturity_example :
    (records : BTreeMap ℕ DisclosedRecord) × (report : ReconcileReport) × (load_records named_disk
        seeds.manifest
        (codes "records")
      ≡ ok records)
    × (reconcile test_field
          (λ t. some t)
          record {
            anchor_set = seeded_set;
            manifest = seeds.manifest;
            records = records;
            attestation = attested;
            deployment = codes "Qm";
            contract = codes "0xc";
          }
          (some trusting_chain)
          false
        ≡ ok report)
    × (report.result ≡ pass)
reconcile-generate_with_maturity_example =
    reconcile-generate_with_maturity test_field test_laws default_maturity_date same seeds is_u64
      seeded named_disk (codes "records") loadable seeded_set seeded_set.commitments attested
      (codes "Qm") (codes "0xc") refl in_order.0 refl in_order.1 (λ t. some t) trusting_chain
      (
        (_, refl, refl),
        ((_, refl, refl), ((_, refl, refl), ((_, refl, refl), ((_, refl, refl), tt)))),
      )
