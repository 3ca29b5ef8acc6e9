-- ===== src/Tests/Served.antt =====
-- Served anchor sets and manifests.
use graph_privacy_showcase_d.Common.{some, [], ◌∷◌, ◌≡◌, ◌↔◌, refl, ok, All, length}
use graph_privacy_showcase_d.Common.Text.{
  codes, text_eq, parse_u64, parse_uint, parse_digits, is_ascii_digit,
}
use graph_privacy_showcase_d.Common.BTreeMap.{nat_ord, get, insert, first_gap, range_from}
use graph_privacy_showcase_d.Anchors.{AnchorSet, CommitmentEntity}
use graph_privacy_showcase_d.Anchors.Parse.{parse_anchor_set, IsServed, parse_anchor_set_iff}
use graph_privacy_showcase_d.Anchors.Ordered.{
  index_commitments, check_contiguous, ordered_commitments, insert_by_id, sort_by_id, counts_from,
  leaf_counts_after_each_call,
}
use graph_privacy_showcase_d.Anchors.Indexed.{AreIndexed, ordered_commitments_sound}
use graph_privacy_showcase_d.Anchors.Arrangement.{ordered_commitments_complete}
use graph_privacy_showcase_d.Records.{
  RecordsManifest, check_class, check_entries, check_seen, check_internal_consistency,
}
use graph_privacy_showcase_d.Records.Manifest.{
  load, load_record, load_entry, load_entries, load_records, manifest_schema,
}
use graph_privacy_showcase_d.Records.Laws.{
  AreDistinct, IsFiled, leaf_indices, check_internal_consistency_sound,
}
use graph_privacy_showcase_d.Records.Loading.{IsLoaded, load_records_sound}
use graph_privacy_showcase_d.Tests.World.{
  test_json, test_disk, test_manifest, test_record, served_set, set_of, manifest_of, commitment,
  call, five_text, six_text, entry_at,
}
use mathlib.Core.List.{Perm}
use mathlib.Core.List.Perm

parse_anchor_set_iff_example :
    (parse_anchor_set test_json (λ v. some (served_set v)) (codes "0x5")
      ≡ ok (served_set (codes "0x5")))
    ↔ IsServed test_json (λ v. some (served_set v)) (codes "0x5") (served_set (codes "0x5"))
parse_anchor_set_iff_example =
    parse_anchor_set_iff test_json (λ v. some (served_set v)) (codes "0x5")
      (served_set (codes "0x5"))

abbrev first : CommitmentEntity
first = commitment (codes "0") (codes "0x5")

abbrev second : CommitmentEntity
second = commitment (codes "1") (codes "0x7")

-- The commitments and the calls in the wrong order.
abbrev shuffled : AnchorSet
shuffled =
    set_of (second ∷ first ∷ [])
      (call (codes "0x2") (codes "2") ∷ call (codes "0x1") (codes "1") ∷ [])

abbrev in_order : AnchorSet
in_order = set_of (first ∷ second ∷ []) []

abbrev two_entries : RecordsManifest
two_entries = manifest_of (entry_at 1 six_text ∷ entry_at 0 five_text ∷ [])

runs :
    (ordered_commitments shuffled ≡ ok (first ∷ second ∷ []))
    × (leaf_counts_after_each_call shuffled ≡ ok (1 ∷ 2 ∷ []))
    × (check_internal_consistency two_entries ≡ ok tt)
    × (load test_disk (codes "m") ≡ ok test_manifest)
    × (load_records test_disk test_manifest (codes "r") ≡ ok ((0, test_record) ∷ []))
    × AreIndexed 0 (first ∷ second ∷ [])
unfolding ordered_commitments index_commitments check_contiguous get insert first_gap parse_u64
    parse_uint parse_digits is_ascii_digit insert_by_id sort_by_id counts_from
    leaf_counts_after_each_call check_class check_entries check_seen check_internal_consistency load
    load_record load_entry load_entries load_records text_eq
runs = (refl, refl, refl, refl, refl, (refl, (refl, tt)))

ordered_commitments_sound_example :
    Perm (first ∷ second ∷ []) shuffled.commitments × AreIndexed 0 (first ∷ second ∷ [])
ordered_commitments_sound_example = ordered_commitments_sound shuffled (first ∷ second ∷ []) runs.0

ordered_commitments_complete_example : ordered_commitments shuffled ≡ ok (first ∷ second ∷ [])
ordered_commitments_complete_example =
    ordered_commitments_complete shuffled (first ∷ second ∷ []) (Perm.swap second first []) runs.5

check_internal_consistency_sound_example :
    Perm (leaf_indices two_entries.entries) (range_from 0 (length two_entries.entries))
    × AreDistinct two_entries.entries
    × All IsFiled two_entries.entries
check_internal_consistency_sound_example = check_internal_consistency_sound two_entries runs.2

load_records_sound_example :
    (test_manifest.schema ≡ manifest_schema)
    × All IsFiled test_manifest.entries
    × All (IsLoaded test_disk (codes "r") ((0, test_record) ∷ [])) test_manifest.entries
load_records_sound_example =
    load_records_sound test_disk (codes "m") (codes "r") test_manifest ((0, test_record) ∷ [])
      runs.3 runs.4
