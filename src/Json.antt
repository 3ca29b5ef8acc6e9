-- ===== src/Json.antt =====
-- The crate `serde_json`: parsed values behind the calls that the program makes.
use graph_privacy_showcase_d.Common.{
  Bool, true, false, not, ◌&&◌, Option, none, some, List, [], ◌∷◌, is_empty, ◌≡◌, ◌↔◌, ◌⊎◌, inl,
  inr, refl, Bool-cases,
}
use graph_privacy_showcase_d.Common.Text.{Text, codes}

pub record Json : Type 1 where
  pub Value : Type 0
  pub from_str : Text → Option Value
  pub to_string : Value → Option Text
  -- `v.get(key)`, `v.pointer(path)`
  pub get : Value → Text → Option Value
  pub pointer : Value → Text → Option Value
  pub is_null : Value → Bool
  pub as_array : Value → Option (List Value)
  pub as_str : Value → Option Text

abbrev present : Option Bool → Bool
present none = true
present (some full) = full

-- The test that `parse_anchor_set` and `parse_allocation_response` make of a response: its field
-- `errors` is there, is not null, and is not an empty array.
module _ (J : Json) where
  open J use {Value, get, is_null, as_array}

  abbrev non_empty_array : Option (List Value) → Option Bool
  non_empty_array none = none
  non_empty_array (some items) = some (not (is_empty items))

  abbrev is_error : Option Value → Bool
  is_error none = false
  is_error (some errors) = not (is_null errors) && present (non_empty_array (as_array errors))

  unfoldable pub carries_errors : Value → Bool
  carries_errors envelope = is_error (get envelope (codes "errors"))

  abbrev IsHarmless : Option Value → Type 0
  IsHarmless none = Unit
  IsHarmless (some errors) = (is_null errors ≡ true) ⊎ (as_array errors ≡ some [])

  -- The field `errors` is missing, null, or an empty array.
  abbrev pub HasNoErrors : Value → Type 0
  HasNoErrors envelope = IsHarmless (get envelope (codes "errors"))

  harmless_array : (o : Option (List Value)) → present (non_empty_array o) ≡ false → o ≡ some []
  harmless_array none h = absurd (cc)
  harmless_array (some []) h = refl
  harmless_array (some (v ∷ vs)) h = absurd (cc)

  is_error_iff : (o : Option Value) → (is_error o ≡ false) ↔ IsHarmless o
  is_error_iff none = ((λ h. tt), (λ h. refl))
  is_error_iff (some errors) = elim (Bool-cases (is_null errors)) [
    | inl null ↦ ((λ h. inl null), (λ h. rw null refl))
    | inr there ↦ (
      (λ h. inr (harmless_array (as_array errors) (rw there at h))),
      (λ h. elim h [ inl null ↦ rw null refl | inr empty ↦ rw (there, empty) refl ]),
    )
  ]

  pub carries_errors_iff :
      (envelope : Value) → (carries_errors envelope ≡ false) ↔ HasNoErrors envelope
  unfolding carries_errors
  carries_errors_iff envelope = is_error_iff (get envelope (codes "errors"))
