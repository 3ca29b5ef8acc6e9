-- ===== src/Common/Results.antt =====
-- `anyhow::Result`: the result type of the crate. An error is named by the `bail!`, `context` or
-- `expect` that makes it, with the values that its message shows; a panic is an error too.
use Prim.Native.Nat.{ℕ}
use mathlib.Core.Path.{◌≡◌, refl}
use mathlib.Core.Bool.{Bool, true, false}
use mathlib.Core.Option.{Option, none, some}
use mathlib.Core.Logic.{◌⊎◌, inl, inr}
use mathlib.Core.List.{List, [], ◌∷◌, map}
use graph_privacy_showcase_d.Common.Lists.{All}

pub data Error : Type 0 where
  -- field.rs
  empty_hex cannot_parse_hex cannot_parse_decimal not_hex not_a_field_element
        rejected_field_element :
      List ℕ → Error
  u64_not_in_field : ℕ → Error
  -- merkle.rs
  no_commitments fuel_exhausted : Error
  leaf_count_out_of_range : ℕ → ℕ → Error
  -- records.rs
  cannot_read cannot_parse unexpected_schema : List ℕ → Error
  leaf_index_twice no_record_file names_record_file : ℕ → Error
  manifest_not_contiguous : ℕ → ℕ → Error
  -- anchors.rs
  not_json graphql_errors no_data unexpected_shape indexing_errors : Error
  page_limit_reached : List ℕ → ℕ → Error
  leaf_index_not_a_number leaf_count_not_a_number : List ℕ → Error
  two_commitments_claim : ℕ → Error
  served_not_contiguous : ℕ → ℕ → Error
  not_monotonic : List ℕ → ℕ → ℕ → Error
  -- attestation.rs
  signer_mismatch unresolvable_signature zero_stake : Error
  missing_field : List ℕ → Error
  other_deployment : List ℕ → List ℕ → Error
  -- reconcile.rs and onchain.rs
  no_loaded_record : ℕ → Error
  root_not_32_bytes cannot_connect : List ℕ → Error
  call_failed no_chain_head : Error
  -- tamper.rs
  identical_record no_value_to_alter no_digit_to_alter not_utf8 no_op : Error
  no_commitments_array empty_anchor_set no_value_field cannot_serialize : Error
  not_a_deployment : List ℕ → Error
  -- fixtures.rs
  index_out_of_bounds : ℕ → Error
  unknown_owner_label cannot_create cannot_write : List ℕ → Error
  -- gateway.rs
  request_failed http_status bad_header no_attestation unreadable_body unverified_answer
        nothing_recovered :
      Error
  -- mock_gateway.rs
  body_not_json no_query variables_not_json header_not_ascii : Error
  -- main.rs
  not_an_address no_bond_address no_record_argument record_not_listed record_not_loaded : Error
  no_block_hash no_block_number nothing_to_compare : Error
  resigned_not_verified needs_chain root_replay_passed : Error

pub data Result {ℓ} (A : Type ℓ) : Type ℓ where
  ok : A → Result A
  err : Error → Result A

-- `.context(e)?` and `.expect(e)` on an option.
abbrev pub context {ℓ} : {A : Type ℓ} → Error → Option A → Result A
context e none = err e
context e (some a) = ok a

-- `if bad { bail!(e) }`
abbrev pub bail_if : Bool → Error → Result (Unit {0})
bail_if true e = err e
bail_if false e = ok tt

module _ {ℓ κ} {A : Type ℓ} {B : Type κ} where
  infixl 5 ◌>>=◌
  -- `m?`, and what follows it.
  abbrev pub ◌>>=◌ : Result A → (A → Result B) → Result B
  err e >>= f = err e
  ok a >>= f = f a

infixl 5 ◌>>◌
-- A test with `?` and what follows it.
abbrev pub ◌>>◌ {ℓ} : {A : Type ℓ} → Result (Unit {0}) → Result A → Result A
test >> rest = test >>= λ _. rest

-- `.map(f).collect::<Result<Vec<_>>>()`
abbrev pub map_results {ℓ κ} : {A : Type ℓ} {B : Type κ} → (A → Result B) → List A → Result (List B)
map_results f [] = ok []
map_results f (x ∷ xs) = do y ← f x; ys ← map_results f xs; ok (y ∷ ys)

-- What a call that always succeeds returns on every element.
pub map_results_ok {ℓ κ} :
    {A : Type ℓ} {B : Type κ} (f : A → Result B) (g : A → B) (P : A → Type 0)
    → ((x : A) → P x → f x ≡ ok (g x))
    → (xs : List A) → All P xs
    → map_results f xs ≡ ok (map g xs)
map_results_ok f g P h [] all = refl
map_results_ok f g P h (x ∷ xs) (p, all) = rw (h x p, map_results_ok f g P h xs all)

pub Result-cases {ℓ} :
    {A : Type ℓ} (r : Result A) → ((a : A) × (r ≡ ok a)) ⊎ ((e : Error) × (r ≡ err e))
Result-cases (ok a) = inl (a, refl)
Result-cases (err e) = inr (e, refl)

-- What a computation whose bind succeeds has returned.
module _ {ℓ κ} {A : Type ℓ} {B : Type κ} (m : Result A) (f : A → Result B) where
  failed : (x : Error) {b : B} → err x ≡ ok b → ⊥
  failed x h = cc

  pub >>=-eq-ok : {b : B} → (m >>= f) ≡ ok b → (a : A) × (m ≡ ok a) × (f a ≡ ok b)
  >>=-eq-ok h = elim (Result-cases m) [
    | inl (a, e) ↦ (a, e, rw e at h)
    | inr (x, e) ↦ absurd (failed x (rw e at h))
  ]

pub context-eq-ok {ℓ} :
    {A : Type ℓ} (e : Error) (o : Option A) {a : A} → context e o ≡ ok a → o ≡ some a
context-eq-ok e none h = cc
context-eq-ok e (some a) h = cc

pub bail_if-eq-ok : (b : Bool) (e : Error) {u : Unit {0}} → bail_if b e ≡ ok u → b ≡ false
bail_if-eq-ok true e h = cc
bail_if-eq-ok false e h = refl

pub ok-injective {ℓ} : {A : Type ℓ} (a b : A) → ok a ≡ ok b → a ≡ b
ok-injective a b e = cc
