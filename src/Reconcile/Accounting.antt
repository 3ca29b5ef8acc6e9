-- ===== src/Reconcile/Accounting.antt =====
-- The accounting passes exactly when the served anchors and the disclosure are the same map
-- (reconcile.rs).
use graph_privacy_showcase_d.Common.{
  ℕ, ◌+◌, Bool, true, ◌&&◌, Option, none, some, List, [], ◌∷◌, ◌≡◌, ◌↔◌, refl, sym, ap, ◌∙◌, arith,
  length, All, is_some, is_empty, Option-cases, inl, inr, ok,
}
use graph_privacy_showcase_d.Common.Text.{Text, text_eq_iff}
use graph_privacy_showcase_d.Common.BTreeMap.{
  BTreeMap, nat_ord, get, contains_key, keys, range_from,
}
use graph_privacy_showcase_d.Common.BTreeMap.Order.{All-get, range_self, contains_key-get}
use graph_privacy_showcase_d.Field.{FieldOps}
use graph_privacy_showcase_d.Anchors.{CommitmentEntity}
use graph_privacy_showcase_d.Records.{ManifestEntry}
use graph_privacy_showcase_d.Attestation.{pass}
use graph_privacy_showcase_d.Reconcile.Checks.{
  outcome_of, option_text_eq, served_from, unaccounted_in, missing_in, account,
}

pub option_text_eq_iff : (o : Option Text) (t : Text) → (option_text_eq o t ≡ true) ↔ (o ≡ some t)
option_text_eq_iff none t = ((λ h. cc), (λ h. cc))
option_text_eq_iff (some s) t =
    ((λ h. ap some ((text_eq_iff s t).0 h)), (λ h. (text_eq_iff s t).1 (cc)))

unaccounted-empty :
    (expected served : BTreeMap ℕ Text)
    → is_empty (unaccounted_in expected served) ≡ true
    → All (λ e. get e.0 expected ≡ some e.1) served
unfolding unaccounted_in
unaccounted-empty expected [] h = tt
unaccounted-empty expected ((idx, v) ∷ served) h =
    ((option_text_eq_iff _ v).0 (ground arith), unaccounted-empty expected served (ground arith))

unaccounted-empty_of_All :
    (expected served : BTreeMap ℕ Text)
    → All (λ e. get e.0 expected ≡ some e.1) served
    → is_empty (unaccounted_in expected served) ≡ true
unfolding unaccounted_in
unaccounted-empty_of_All expected [] h = refl
unaccounted-empty_of_All expected ((idx, v) ∷ served) (p, h) =
    rw ((option_text_eq_iff (get idx expected) v).1 p) (unaccounted-empty_of_All expected served h)

missing-empty :
    (served expected : BTreeMap ℕ Text)
    → is_empty (missing_in served expected) ≡ true
    → All (λ e. contains_key e.0 served ≡ true) expected
unfolding missing_in
missing-empty served [] h = tt
missing-empty served ((idx, v) ∷ expected) h =
    (ground arith, missing-empty served expected (ground arith))

missing-empty_of_All :
    (served expected : BTreeMap ℕ Text)
    → All (λ e. contains_key e.0 served ≡ true) expected
    → is_empty (missing_in served expected) ≡ true
unfolding missing_in
missing-empty_of_All served [] h = refl
missing-empty_of_All served ((idx, v) ∷ expected) (p, h) =
    rw p (missing-empty_of_All served expected h)

-- The two maps hold the same at every key.
abbrev pub SameMap : BTreeMap ℕ Text → BTreeMap ℕ Text → Type 0
SameMap m n = (k : ℕ) → get k m ≡ get k n

same_of_covers :
    (served expected : BTreeMap ℕ Text)
    → All (λ e. get e.0 expected ≡ some e.1) served
    → All (λ e. contains_key e.0 served ≡ true) expected
    → SameMap served expected
same_of_covers served expected h k idx = elim (Option-cases (get idx served)) [
  | inr (w, found) ↦ found ∙ sym (All-get (λ i v. get i expected ≡ some v) served idx w h found)
  | inl absent ↦ elim (Option-cases (get idx expected)) [
    | inl none_too ↦ absent ∙ sym none_too
    | inr (v, found) ↦
        let there = All-get (λ i _. contains_key i served ≡ true) expected idx v k found in
        absurd (cc (contains_key-get idx served))
  ]
]

All-contains :
    (served expected rest : BTreeMap ℕ Text)
    → SameMap served expected
    → All (λ e. contains_key e.0 expected ≡ true) rest
    → All (λ e. contains_key e.0 served ≡ true) rest
All-contains served expected [] s h = tt
All-contains served expected ((i, v) ∷ rest) s (p, h) = (
  contains_key-get i served ∙ ap is_some (s i) ∙ sym (contains_key-get i expected) ∙ p,
  All-contains served expected rest s h,
)

contains-behind :
    (j : ℕ) (v : Text) (m rest : BTreeMap ℕ Text)
    → All (λ e. contains_key e.0 m ≡ true) rest
    → All (λ e. contains_key e.0 ((j, v) ∷ m) ≡ true) rest
unfolding contains_key
contains-behind j v m [] h = tt
contains-behind j v m (e ∷ rest) (p, h) = (ground arith, contains-behind j v m rest h)

contains_self : (m : BTreeMap ℕ Text) → All (λ e. contains_key e.0 m ≡ true) m
contains_self [] = tt
contains_self ((j, v) ∷ m) =
    (unfold contains_key in ground arith, contains-behind j v m m (contains_self m))

All-same :
    (served expected rest : BTreeMap ℕ Text)
    → SameMap served expected
    → All (λ e. get e.0 served ≡ some e.1) rest
    → All (λ e. get e.0 expected ≡ some e.1) rest
All-same served expected [] s h = tt
All-same served expected ((i, v) ∷ rest) s (p, h) =
    (sym (s i) ∙ p, All-same served expected rest s h)

outcome_split : (a b : Bool) → outcome_of (a && b) ≡ pass → (a ≡ true) × (b ≡ true)
outcome_split a b h = ground arith

-- Where the served leaves are numbered without a gap, the accounting passes exactly when the served
-- anchors and the disclosure hold the same commitment, or both none, at every leaf index.
pub account_pass_iff :
    (served expected : BTreeMap ℕ Text) (entries : List ManifestEntry) (n : ℕ)
    → keys served ≡ range_from 0 n
    → ((account served expected entries).0.outcome ≡ pass) ↔ SameMap served expected
unfolding account
account_pass_iff served expected entries n numbered = (
  (λ h.
      let (covered, present) = outcome_split _ _ h in
      same_of_covers served expected (unaccounted-empty expected served covered)
        (missing-empty served expected present)),
  (λ s. rw (
    unaccounted-empty_of_All expected served
        (All-same served expected served s (range_self served 0 n numbered)),
    missing-empty_of_All served expected
        (All-contains served expected expected s (contains_self expected)),
  )),
)

module _ (F : FieldOps) where
  -- The served values are numbered from the start without a gap.
  pub keys-served_from :
      (i : ℕ) (cs : List CommitmentEntity) (served : BTreeMap ℕ Text)
      → served_from F i cs ≡ ok served
      → keys served ≡ range_from i (length cs)
  unfolding served_from
  keys-served_from i [] [] e = refl
  keys-served_from i [] (p ∷ served) e = absurd (cc)
  keys-served_from i (c ∷ cs) [] e = absurd (ground arith)
  keys-served_from i (c ∷ cs) (p ∷ served) e =
      let later = keys-served_from (i + 1) cs served (ground arith) in
      let first : p.0 ≡ i = ground arith in rw (first, later)
