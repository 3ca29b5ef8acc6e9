-- ===== src/Session/Listing.antt =====
-- The loop of `fetch_active_indexers` of main.rs: the indexers that a list of allocations names.
use graph_privacy_showcase_d.Common.{
  true, false, ◌||◌, none, some, List, [], ◌∷◌, ◌++◌, if◌then◌else◌, ◌≡◌, ◌↔◌, ◌⊎◌, inl, inr, refl,
  sym, ap, ◌∙◌, arith, Bool-cases, Option-cases, some-injective,
}
use graph_privacy_showcase_d.Common.Text.{Text, codes, text_eq, text_eq_iff, to_lowercase}
use graph_privacy_showcase_d.Attestation.Signer.{text_at}
use graph_privacy_showcase_d.Consistency.Distinct.{occurs, text_eq_sym}
use graph_privacy_showcase_d.Gateway.{Net}
use graph_privacy_showcase_d.Session.{contains, active_indexers}
use graph_privacy_showcase_d.Session.Audit.{System}

abbrev pub Any {ℓ} : {A : Type ℓ} → (A → Type 0) → List A → Type 0
Any P [] = ⊥
Any P (x ∷ xs) = P x ⊎ Any P xs

abbrev pub AreDistinct : List Text → Type 0
AreDistinct [] = Unit
AreDistinct (t ∷ ts) = (occurs t ts ≡ false) × AreDistinct ts

contains-eq-occurs : (t : Text) (ts : List Text) → contains t ts ≡ occurs t ts
unfolding contains
contains-eq-occurs t [] = refl
contains-eq-occurs t (s ∷ ts) = ground (arith, contains-eq-occurs t ts)

occurs-snoc : (t s : Text) (ts : List Text) → occurs t (ts ++ s ∷ []) ≡ (occurs t ts || text_eq t s)
occurs-snoc t s [] = ground arith
occurs-snoc t s (x ∷ ts) = ground (arith, occurs-snoc t s ts)

AreDistinct-snoc :
    (s : Text) (ts : List Text) → AreDistinct ts → occurs s ts ≡ false → AreDistinct (ts ++ s ∷ [])
AreDistinct-snoc s [] d n = (refl, tt)
AreDistinct-snoc s (t ∷ ts) (h, d) n =
    (occurs-snoc t s ts ∙ ground (arith, text_eq_sym t s), AreDistinct-snoc s ts d (ground arith))

widen : {X B C O A : Type 0} → (X ↔ (B ⊎ C)) → (B → O ⊎ A) → (O → B) → (A → B) → X ↔ (O ⊎ (A ⊎ C))
widen e f g h = (
  (λ x. elim (e.0 x) [
    | inl b ↦ elim (f b) [ inl o ↦ inl o | inr a ↦ inr (inl a) ]
    | inr c ↦ inr (inr c)
  ]),
  (λ y. elim y [
    | inl o ↦ e.1 (inl (g o))
    | inr z ↦ elim z [ inl a ↦ e.1 (inl (h a)) | inr c ↦ e.1 (inr c) ]
  ]),
)

last_occurs : (id t : Text) (out : List Text) → t ≡ id → occurs id (out ++ t ∷ []) ≡ true
last_occurs id t out same =
    let found = (text_eq_iff id t).1 (sym same) in occurs-snoc id t out ∙ ground arith

split_or :
    (id t : Text) (out : List Text)
    → occurs id (out ++ t ∷ []) ≡ true
    → (occurs id out ≡ true) ⊎ (t ≡ id)
split_or id t out e = elim (Bool-cases (occurs id out)) [
  | inl old ↦ inl old
  | inr new ↦ inr (sym ((text_eq_iff id t).0 (ground (arith, sym (occurs-snoc id t out) ∙ e))))
]

module _ (S : System) (N : Net) where
  open S use {json}

  -- The allocation names an indexer, in some case of its letters.
  abbrev pub Names : Text → json.Value → Type 0
  Names id allocation =
      (t : Text) × (text_at json allocation (codes "/indexer/id") ≡ some t) × (to_lowercase t ≡ id)

  skipped :
      (a : json.Value) (allocations : List json.Value) (out : List Text)
      → text_at json a (codes "/indexer/id") ≡ none
      → active_indexers N json (a ∷ allocations) out ≡ active_indexers N json allocations out
  unfolding active_indexers
  skipped a allocations out e = elim (Option-cases (json.pointer a (codes "/indexer/id"))) [
    | inl nothing ↦ rw (active_indexers, nothing) refl
    | inr (v, found) ↦ rw (active_indexers, found, (rw (text_at, found) at e)) refl
  ]

  added :
      (a : json.Value) (allocations : List json.Value) (out : List Text) (t : Text)
      → text_at json a (codes "/indexer/id") ≡ some t
      → active_indexers N json (a ∷ allocations) out ≡ (
          if contains (to_lowercase t) out
          then active_indexers N json allocations out
          else active_indexers N json allocations (out ++ to_lowercase t ∷ []))
  unfolding active_indexers
  added a allocations out t e = elim (Option-cases (json.pointer a (codes "/indexer/id"))) [
    | inl nothing ↦ absurd (cc (rw (text_at, nothing) at e))
    | inr (v, found) ↦ rw (active_indexers, found, (rw (text_at, found) at e)) refl
  ]

  pub active_indexers-distinct :
      (allocations : List json.Value) (out : List Text)
      → AreDistinct out
      → AreDistinct (active_indexers N json allocations out)
  active_indexers-distinct [] out d = unfold active_indexers in d
  active_indexers-distinct (a ∷ allocations) out d =
      elim (Option-cases (text_at json a (codes "/indexer/id"))) [
        | inl nothing ↦
            rw (skipped a allocations out nothing) (active_indexers-distinct allocations out d)
        | inr (t, found) ↦ elim (Bool-cases (contains (to_lowercase t) out)) [
          | inl old ↦
              rw (added a allocations out t found, old) (active_indexers-distinct allocations out d)
          | inr new ↦
              let fresh = sym (contains-eq-occurs (to_lowercase t) out) ∙ new in
              rw (added a allocations out t found, new)
                (active_indexers-distinct allocations (out ++ to_lowercase t ∷ [])
                  (AreDistinct-snoc (to_lowercase t) out d fresh))
        ]
      ]

  -- The indexers of a list of allocations, beside some that are there already.
  pub active_indexers_iff :
      (id : Text) (allocations : List json.Value) (out : List Text)
      → (occurs id (active_indexers N json allocations out) ≡ true)
        ↔ ((occurs id out ≡ true) ⊎ Any (Names id) allocations)
  active_indexers_iff id [] out =
      unfold active_indexers in
      ((λ h. inl h), (λ h. elim h [ inl old ↦ old | inr never ↦ absurd never ]))
  active_indexers_iff id (a ∷ allocations) out =
      elim (Option-cases (text_at json a (codes "/indexer/id"))) [
        | inl nothing ↦
            let later = active_indexers_iff id allocations out in
            let never : Names id a → occurs id out ≡ true =
              λ (t, named, _). absurd (cc (sym nothing ∙ named)) in
            rw (skipped a allocations out nothing) (widen later (λ o. inl o) (λ o. o) never)
        | inr (t, found) ↦ elim (Bool-cases (contains (to_lowercase t) out)) [
          | inl old ↦
              let later = active_indexers_iff id allocations out in
              let known : Names id a → occurs id out ≡ true = λ (u, named, lower).
                ap (λ x. occurs x out)
                  (sym lower ∙ ap to_lowercase (some-injective (sym named ∙ found)))
                ∙ sym (contains-eq-occurs (to_lowercase t) out)
                ∙ old in
              rw (added a allocations out t found, old) (widen later (λ o. inl o) (λ o. o) known)
          | inr new ↦
              let later = active_indexers_iff id allocations (out ++ to_lowercase t ∷ []) in
              let kept : occurs id out ≡ true → occurs id (out ++ to_lowercase t ∷ []) ≡ true =
                λ o. occurs-snoc id (to_lowercase t) out ∙ rw o refl in
              let put : Names id a → occurs id (out ++ to_lowercase t ∷ []) ≡ true =
                λ (u, named, lower).
                  last_occurs id (to_lowercase t) out
                    (ap to_lowercase (some-injective (sym found ∙ named)) ∙ lower) in
              let split : occurs id (out ++ to_lowercase t ∷ []) ≡ true
                  → (occurs id out ≡ true) ⊎ Names id a =
                λ o. elim (split_or id (to_lowercase t) out o) [
                  | inl old ↦ inl old
                  | inr same ↦ inr (t, found, same)
                ] in
              rw (added a allocations out t found, new) (widen later split kept put)
        ]
      ]
