-- ===== src/Tests/Seeds.antt =====
-- The seed fixtures of the default maturity, written, read back and reconciled.
use graph_privacy_showcase_d.Common.{
  some-injective, ℕ, true, false, not, Bool, ◌&&◌, ◌==◌, Option, none, some, List, [], ◌∷◌, ◌++◌,
  map, ◌≡◌, refl, sym, ap, ◌∙◌, arith, All, if◌then◌else◌, ok, Result, all, map_results, get_elem?,
  take, drop,
}
use graph_privacy_showcase_d.Common.Text.{
  Text, codes, text_eq, text_eq_refl, decimal, decimal_digits,
}
use graph_privacy_showcase_d.Common.BTreeMap.{BTreeMap, nat_ord, keys, values}
use graph_privacy_showcase_d.Field.{fr_from_hex, fr_to_hex}
use graph_privacy_showcase_d.Merkle.{root_history}
use graph_privacy_showcase_d.Records.{DisclosedRecord, ManifestEntry, check_internal_consistency}
use graph_privacy_showcase_d.Records.Manifest.{Disk, load, load_records}
use graph_privacy_showcase_d.Fixtures.{GeneratedFixtures, default_maturity_date}
use graph_privacy_showcase_d.Fixtures.Generate.{generate_with_maturity}
use graph_privacy_showcase_d.Fixtures.Made.{IsU64}
use graph_privacy_showcase_d.Fixtures.Whole.{made, generate_with_maturity-eq-made}
use graph_privacy_showcase_d.Fixtures.Spent.{
  input_at, spent_by_calls, appended_by_calls, Recomputes, generated_calls, generated_roots,
  generate_with_maturity_total,
}
use graph_privacy_showcase_d.Fixtures.Write.{Store, to_pretty_json, write_records, write_to}
use graph_privacy_showcase_d.Fixtures.Files.{StoreLaws, ArePairwiseOther, written_paths}
use graph_privacy_showcase_d.Fixtures.Written.{disk_after, IsReadBack}
use graph_privacy_showcase_d.Fixtures.Loaded.{filed_indices}
use graph_privacy_showcase_d.Session.Seed.{
  SeedFixturesArgs, cmd_seed_fixtures, cmd_seed_fixtures_sound,
}
use graph_privacy_showcase_d.Tests.{test_field, test_laws}

abbrev pub same : Text → Text
same t = t

abbrev pub seeds : GeneratedFixtures
seeds = made test_field test_laws default_maturity_date same

pub is_u64 : IsU64 default_maturity_date
is_u64 = omega arith

pub seeded : generate_with_maturity test_field same default_maturity_date ≡ ok seeds
seeded = generate_with_maturity-eq-made test_field test_laws default_maturity_date same is_u64

generated_calls_example :
    (spent_by_calls seeds.lifecycle
      ≡ map (λ (p : Text × DisclosedRecord). p.1.nullifier) seeds.records)
    × (appended_by_calls seeds.lifecycle
        ≡ map (λ (e : ManifestEntry). e.commitment) seeds.manifest.entries)
generated_calls_example =
    generated_calls test_field test_laws default_maturity_date same seeds is_u64 seeded

-- Files by their paths.
abbrev Files : Type 0
Files = Text → Option Text

abbrev test_write : Text → Text → Files → Result (Unit {0}) × Files
test_write path contents files =
    (ok tt, λ other. if text_eq other path then some contents else files other)

abbrev test_store : Store
test_store = record {
  World = Files;
  create_dir_all = λ path files. (ok tt, files);
  write = test_write;
  join = λ dir file. dir ++ (codes "/" ++ file);
  record_pretty = λ r. some (r.salt ∷ []);
  manifest_pretty = λ manifest. some [];
  lifecycle_pretty = λ lifecycle. some [];
}

module _ (p q s : Text) (w v : Files) where
  written_same : test_write p s w ≡ (ok tt, v) → v p ≡ some s
  written_same e = ap (λ (r : Result (Unit {0}) × Files). r.1 p) (sym e) ∙ rw (text_eq_refl p) refl

  written_other : text_eq p q ≡ false → test_write q s w ≡ (ok tt, v) → v p ≡ w p
  written_other h e = ap (λ (r : Result (Unit {0}) × Files). r.1 p) (sym e) ∙ rw h refl

abbrev test_store_laws : StoreLaws test_store
test_store_laws = record {
  read = λ files path. files path;
  IsOther = λ p q. text_eq p q ≡ false;
  write_same = λ p s w v e. written_same p p s w v e;
  write_other = λ p q s w v h e. written_other p q s w v h e;
}

abbrev other_than_all : Text → List Text → Bool
other_than_all p ps = all (λ q. not (text_eq p q)) ps

abbrev all_other : List Text → Bool
all_other [] = true
all_other (p ∷ ps) = other_than_all p ps && all_other ps

other-All :
    (p : Text) (ps : List Text) → other_than_all p ps ≡ true → All (λ q. text_eq p q ≡ false) ps
other-All p [] h = tt
other-All p (q ∷ ps) h = (ground arith, other-All p ps (ground arith))

pairwise_other :
    (ps : List Text) → all_other ps ≡ true → ArePairwiseOther test_store test_store_laws ps
pairwise_other [] h = tt
pairwise_other (p ∷ ps) h = (other-All p ps (ground arith), pairwise_other ps (ground arith))

-- The record with a salt.
abbrev find_salt : ℕ → List (Text × DisclosedRecord) → Option DisclosedRecord
find_salt salt [] = none
find_salt salt ((file, r) ∷ rest) = if r.salt == salt then some r else find_salt salt rest

abbrev read_salt : Text → Option DisclosedRecord
read_salt [] = none
read_salt (salt ∷ s) = find_salt salt seeds.records

abbrev salt_disk : Disk
salt_disk = record {
  read_to_string = λ path. none;
  join = λ dir file. file;
  manifest_from_str = λ s. some seeds.manifest;
  record_from_str = read_salt;
}

read_back :
    (r : DisclosedRecord)
    → find_salt r.salt seeds.records ≡ some r
    → IsReadBack test_store test_store_laws salt_disk r
read_back r found s e = rw (sym (some-injective e)) found

seeds-IsReadBack :
    All
      (λ (p : Text × DisclosedRecord). IsReadBack test_store test_store_laws salt_disk p.1)
      seeds.records
seeds-IsReadBack = (
  read_back _ refl,
  (
    read_back _ refl,
    (read_back _ refl, (read_back _ refl, (read_back _ refl, (read_back _ refl, tt)))),
  ),
)

written : Files
unfolding write_to
written = (write_to test_store (codes "out") seeds (λ path. none)).1

all_written : write_to test_store (codes "out") seeds (λ path. none) ≡ (ok tt, written)
unfolding write_to written write_records to_pretty_json
all_written = refl

paths_differ : all_other (written_paths test_store test_store_laws (codes "out") seeds) ≡ true
unfolding text_eq decimal decimal_digits
paths_differ = refl

generate_with_maturity_total_example :
    (g : GeneratedFixtures) × (generate_with_maturity test_field same default_maturity_date ≡ ok g)
    × (check_internal_consistency g.manifest ≡ ok tt)
    × All (Recomputes test_field test_laws default_maturity_date) g.records
generate_with_maturity_total_example =
    generate_with_maturity_total test_field test_laws default_maturity_date same is_u64

generated_roots_example :
    ((leaves : List test_field.Fr) × (history : List test_field.Fr) × (map_results
          (λ (e : ManifestEntry). fr_from_hex test_field e.commitment)
          seeds.manifest.entries
        ≡ ok leaves)
      × (root_history test_field leaves seeds.manifest.leaf_counts_after_each_call ≡ ok history)
      × (seeds.lifecycle.expected_roots ≡ map (fr_to_hex test_field) history))
    × (get_elem? seeds.lifecycle.expected_roots 1 ≡ some seeds.lifecycle.transfer.root)
    × (take 1 (drop 2 seeds.lifecycle.expected_roots)
        ≡ input_at 0 seeds.lifecycle.atomic_swap.public_inputs_a)
    × (take 1 (drop 2 seeds.lifecycle.expected_roots)
        ≡ input_at 0 seeds.lifecycle.atomic_swap.public_inputs_b)
    × (get_elem? seeds.lifecycle.expected_roots 3 ≡ some seeds.lifecycle.burn.root)
generated_roots_example =
    generated_roots test_field test_laws default_maturity_date same seeds is_u64 seeded

abbrev seed_args : SeedFixturesArgs
seed_args = record { out_dir = codes "out"; maturity = default_maturity_date }

ran : cmd_seed_fixtures test_field same test_store seed_args (λ path. none) ≡ (ok true, written)
unfolding cmd_seed_fixtures
ran =
    let made : generate_with_maturity test_field same default_maturity_date ≡ ok seeds = seeded in
    rw (made, all_written) refl

cmd_seed_fixtures_sound_example :
    (load
        (disk_after test_store test_store_laws salt_disk written)
        (codes "out/records-manifest.json")
      ≡ ok seeds.manifest)
    × (records : BTreeMap ℕ DisclosedRecord) × (load_records
          (disk_after test_store test_store_laws salt_disk written)
          seeds.manifest
          (codes "out/records")
        ≡ ok records)
    × (values records ≡ map (λ (p : Text × DisclosedRecord). p.1) seeds.records)
    × (keys records ≡ filed_indices seeds.manifest.entries)
cmd_seed_fixtures_sound_example =
    cmd_seed_fixtures_sound test_field same test_store test_laws test_store_laws salt_disk seed_args
      seeds (λ path. none) written true is_u64 seeded
      (pairwise_other (written_paths test_store test_store_laws (codes "out") seeds) paths_differ)
      (λ s e. refl) seeds-IsReadBack ran
