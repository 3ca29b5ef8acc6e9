-- ===== src/Records/Laws.antt =====
-- What a manifest that passes its check is known to hold (records.rs).
use graph_privacy_showcase_d.Common.{
  ℕ, suc, Bool, true, false, none, List, [], ◌∷◌, ◌++◌, ◌≡◌, ◌≢◌, refl, sym, ap, ◌∙◌, arith, ok,
  map, length, All, is_some, >>=-eq-ok, ok-injective, append-nil,
}
use graph_privacy_showcase_d.Common.BTreeMap.{
  BTreeMap, nat_ord, get, insert, keys, insert-perm, get-insert, first_gap-eq-none, range_from,
}
use graph_privacy_showcase_d.Records.{
  AccountingClass, disclosed, burn_output_zero, ManifestEntry, RecordsManifest, check_class,
  check_entries, check_seen, check_internal_consistency,
}
use mathlib.Core.List.{Perm, Permᴰ, perm_middle}
use mathlib.Core.Logic.{∥∥₁_elim}
use native.Mathlib.Nat.{ℕ_set}
use mathlib.Core.List.Perm

-- A disclosed entry names a record file, and a burn output names none.
abbrev pub IsFiled : ManifestEntry → Type 0
IsFiled entry = is_some entry.record_file ≡ names entry.class
  where
    names : AccountingClass → Bool
    names disclosed = true
    names burn_output_zero = false

abbrev pub leaf_indices : List ManifestEntry → List ℕ
leaf_indices entries = map (λ (e : ManifestEntry). e.leaf_index) entries

check_class-eq-ok :
    (entry : ManifestEntry) {u : Unit {0}} → check_class entry entry.class ≡ ok u → IsFiled entry
unfolding check_class
check_class-eq-ok entry h = ground arith

-- No two entries have one leaf index.
abbrev pub AreDistinct : List ManifestEntry → Type 0
AreDistinct [] = Unit
AreDistinct (e ∷ es) = All (λ (f : ManifestEntry). f.leaf_index ≢ e.leaf_index) es × AreDistinct es

module _ (entry : ManifestEntry) (es : List ManifestEntry) (seen r : BTreeMap ℕ (Unit {0})) where
  check_step :
      check_entries (entry ∷ es) seen ≡ ok r
      → (get entry.leaf_index seen ≡ none)
        × IsFiled entry
        × (check_entries es (insert entry.leaf_index tt seen) ≡ ok r)
  unfolding check_entries check_class
  check_step e = (ground arith, ground arith, ground arith)

check_entries_sound :
    (es : List ManifestEntry) (seen r : BTreeMap ℕ (Unit {0}))
    → check_entries es seen ≡ ok r
    → Perm (keys r) (leaf_indices es ++ keys seen) × All IsFiled es
check_entries_sound [] seen r e =
    unfold check_entries in (rw (sym (ok-injective seen r e)) (Perm.refl _), tt)
check_entries_sound (entry ∷ es) seen r e =
    let (fresh, filed, e1) = check_step entry es seen r e in
    let (perm, all_filed) = check_entries_sound es (insert entry.leaf_index tt seen) r e1 in
    (
      Perm.trans perm (
          Perm.trans
            (Perm.append_left (leaf_indices es)
              (Perm.map (λ p. p.0) (insert-perm entry.leaf_index tt seen fresh)))
            (perm_middle (leaf_indices es) (keys seen))),
      (filed, all_filed),
    )

unseen_split :
    (k : ℕ) (es : List ManifestEntry) (seen : BTreeMap ℕ (Unit {0}))
    → All (λ (f : ManifestEntry). get f.leaf_index (insert k tt seen) ≡ none) es
    → All (λ (f : ManifestEntry). f.leaf_index ≢ k) es
      × All (λ (f : ManifestEntry). get f.leaf_index seen ≡ none) es
unseen_split k [] seen h = (tt, tt)
unseen_split k (f ∷ es) seen (p, h) =
    let (ne, rest) = unseen_split k es seen h in
    (
      (ground (arith, get-insert k f.leaf_index tt seen), ne),
      (ground (arith, get-insert k f.leaf_index tt seen), rest),
    )

check_entries_distinct :
    (es : List ManifestEntry) (seen r : BTreeMap ℕ (Unit {0}))
    → check_entries es seen ≡ ok r
    → AreDistinct es × All (λ (f : ManifestEntry). get f.leaf_index seen ≡ none) es
check_entries_distinct [] seen r e = (tt, tt)
check_entries_distinct (entry ∷ es) seen r e =
    let (fresh, _, e1) = check_step entry es seen r e in
    let (distinct, unseen) = check_entries_distinct es (insert entry.leaf_index tt seen) r e1 in
    let (ne, rest) = unseen_split entry.leaf_index es seen unseen in ((ne, distinct), (fresh, rest))

seen-eq-ok :
    (seen : BTreeMap ℕ (Unit {0})) {u : Unit {0}}
    → check_seen seen ≡ ok u
    → keys seen ≡ range_from 0 (length (keys seen))
unfolding check_seen
seen-eq-ok seen e = first_gap-eq-none 0 (keys seen) (ground arith)

length-permᴰ {ℓ} : {A : Type ℓ} {xs ys : List A} → Permᴰ xs ys → length xs ≡ length ys
length-permᴰ Permᴰ.nil = refl
length-permᴰ (Permᴰ.cons _ q) = ap suc (length-permᴰ q)
length-permᴰ (Permᴰ.swap _ _) = refl
length-permᴰ (Permᴰ.trans q r) = length-permᴰ q ∙ length-permᴰ r

pub length-perm {ℓ} : {A : Type ℓ} {xs ys : List A} → Perm xs ys → length xs ≡ length ys
length-perm p = ∥∥₁_elim p (ℕ_set _ _) length-permᴰ

length-leaf_indices : (es : List ManifestEntry) → length (leaf_indices es) ≡ length es
length-leaf_indices [] = refl
length-leaf_indices (e ∷ es) = ap suc (length-leaf_indices es)

-- In a manifest that passes the check the leaf indices are a rearrangement of 0, 1, … up to the number
-- of entries, no two entries share one, every disclosed entry names a record file, and no burn
-- output names one.
pub check_internal_consistency_sound :
    (manifest : RecordsManifest) {u : Unit {0}}
    → check_internal_consistency manifest ≡ ok u
    → Perm (leaf_indices manifest.entries) (range_from 0 (length manifest.entries))
      × AreDistinct manifest.entries
      × All IsFiled manifest.entries
unfolding check_internal_consistency
check_internal_consistency_sound manifest e =
    let (seen, checked, e1) = >>=-eq-ok (check_entries manifest.entries []) check_seen e in
    let (perm, filed) = check_entries_sound manifest.entries [] seen checked in
    let perm' : Perm (keys seen) (leaf_indices manifest.entries) = rw append-nil at perm in
    let count : length (keys seen) ≡ length manifest.entries =
      length-perm perm' ∙ length-leaf_indices manifest.entries in
    let range : keys seen ≡ range_from 0 (length manifest.entries) =
      seen-eq-ok seen e1 ∙ ap (range_from 0) count in
    (
      rw (← range) (Perm.symm perm'),
      (check_entries_distinct manifest.entries [] seen checked).0,
      filed,
    )
