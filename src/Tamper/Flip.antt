-- ===== src/Tamper/Flip.antt =====
-- `alter_one_response_byte` changes one hexadecimal digit, and nothing else (tamper.rs).
use graph_privacy_showcase_d.Common.{
  ℕ, ◌+◌, ◌↔◌, true, false, some, [], ◌∷◌, ◌++◌, ◌≡◌, ◌≢◌, refl, sym, ap, ◌∙◌, arith, All, ok, err,
  bail_if, context, Option-cases, Bool-cases, inl, inr, >>=-eq-ok, ok-injective, context-eq-ok,
  no_value_to_alter, no_digit_to_alter, no_op,
}
use graph_privacy_showcase_d.Common.Text.{
  Text, text_eq, text_eq_iff, strip_prefix, is_ascii_digit, is_ascii_hexdigit,
}
use graph_privacy_showcase_d.Tamper.{
  split_after, rotate_digit, rotate_first, marker, alter_one_response_byte,
}

-- A decimal digit becomes the next character, and a letter the character before it. The result is again a
-- hexadecimal digit unless the digit was `9`, `a` or `A`.
pub record IsStep (digit other : ℕ) : Type 0 where
  pub up : is_ascii_digit digit ≡ true → other ≡ digit + 1
  pub down : is_ascii_digit digit ≡ false → digit ≡ other + 1
  pub stays : (is_ascii_hexdigit other ≡ true) ↔ ((digit ≢ b'9') × (digit ≢ b'a') × (digit ≢ b'A'))

rotate_digit-up :
    (c : ℕ) → is_ascii_hexdigit c ≡ true → is_ascii_digit c ≡ true → rotate_digit c ≡ c + 1
unfolding rotate_digit is_ascii_digit is_ascii_hexdigit
rotate_digit-up c h d = ground arith

rotate_digit-down :
    (c : ℕ) → is_ascii_hexdigit c ≡ true → is_ascii_digit c ≡ false → c ≡ rotate_digit c + 1
unfolding rotate_digit is_ascii_digit is_ascii_hexdigit
rotate_digit-down c h d = ground arith

rotate_digit-stays :
    (c : ℕ)
    → is_ascii_hexdigit c ≡ true
    → (is_ascii_hexdigit (rotate_digit c) ≡ true) ↔ ((c ≢ b'9') × (c ≢ b'a') × (c ≢ b'A'))
unfolding rotate_digit is_ascii_digit is_ascii_hexdigit
rotate_digit-stays c h = ground arith

rotate_digit-IsStep : (c : ℕ) → is_ascii_hexdigit c ≡ true → IsStep c (rotate_digit c)
rotate_digit-IsStep c h = record {
  up = rotate_digit-up c h;
  down = rotate_digit-down c h;
  stays = rotate_digit-stays c h;
}

IsStep-changes : (digit other : ℕ) → IsStep digit other → other ≢ digit
IsStep-changes digit other s e = elim (Bool-cases (is_ascii_digit digit)) [
  | inl d ↦ let next = s.up d in absurd (omega arith)
  | inr d ↦ let next = s.down d in absurd (omega arith)
]

-- One digit of a text is changed by a step, and the characters before it are not digits.
pub record Rotated (s t : Text) : Type 0 where
  pub before : Text
  pub digit : ℕ
  pub other : ℕ
  pub after : Text
  pub is_digit : is_ascii_hexdigit digit ≡ true
  pub step : IsStep digit other
  pub none_before : All (λ c. is_ascii_hexdigit c ≡ false) before
  pub was : s ≡ before ++ digit ∷ after
  pub now : t ≡ before ++ other ∷ after

rotate_first-Rotated : (s t : Text) → rotate_first s ≡ some t → Rotated s t
unfolding rotate_first
rotate_first-Rotated [] t e = absurd (cc)
rotate_first-Rotated (c ∷ s) t e = elim (Bool-cases (is_ascii_hexdigit c)) [
  | inl digit ↦ record {
    before = [];
    digit = c;
    other = rotate_digit c;
    after = s;
    is_digit = digit;
    step = rotate_digit-IsStep c digit;
    none_before = tt;
    was = refl;
    now = ground arith;
  }
  | inr other ↦ elim (Option-cases (rotate_first s)) [
    | inl nothing ↦ absurd (ground arith)
    | inr (u, found) ↦
        let r = rotate_first-Rotated s u found in
        record {
          before = c ∷ r.before;
          digit = r.digit;
          other = r.other;
          after = r.after;
          is_digit = r.is_digit;
          step = r.step;
          none_before = (other, r.none_before);
          was = ap (λ x. c ∷ x) r.was;
          now = ground (arith, r.now);
        }
  ]
]

strip_prefix-eq-some : (p s r : Text) → strip_prefix p s ≡ some r → s ≡ p ++ r
unfolding strip_prefix
strip_prefix-eq-some [] s r e = cc
strip_prefix-eq-some (p ∷ ps) [] r e = absurd (cc)
strip_prefix-eq-some (p ∷ ps) (c ∷ s) r e = ground (arith, strip_prefix-eq-some ps s r)

-- The first part ends in the marker, and the parts make up the text.
split_after-eq-some :
    (m s a r : Text) → split_after m s ≡ some (a, r) → (s ≡ a ++ r) × (b : Text) × (a ≡ b ++ m)
unfolding split_after
split_after-eq-some m [] a r e = elim (Option-cases (strip_prefix m [])) [
  | inl other ↦ absurd (ground arith)
  | inr (rest, found) ↦ (ground (arith, strip_prefix-eq-some m [] rest found), [], ground arith)
]
split_after-eq-some m (c ∷ s) a r e = elim (Option-cases (strip_prefix m (c ∷ s))) [
  | inr (rest, found) ↦
      (ground (arith, strip_prefix-eq-some m (c ∷ s) rest found), [], ground arith)
  | inl other ↦ elim (Option-cases (split_after m s)) [
    | inl none_later ↦ absurd (ground arith)
    | inr ((before, rest), later) ↦
        let (parts, b, ends) = split_after-eq-some m s before rest later in
        (ground arith, c ∷ b, ground arith)
  ]
]

Rotated-changes : (a s t : Text) → Rotated s t → a ++ t ≢ a ++ s
Rotated-changes [] s t r e = tail r.before (sym r.now ∙ e ∙ r.was)
  where
    tail : (b : Text) → b ++ r.other ∷ r.after ≡ b ++ r.digit ∷ r.after → ⊥
    tail [] e = IsStep-changes r.digit r.other r.step (cc)
    tail (c ∷ b) e = tail b (cc)
Rotated-changes (c ∷ a) s t r e = Rotated-changes a s t r (cc)

-- Exactly one character of the response is changed: the first hexadecimal digit after a place
-- where the text `"0x` stands. A decimal digit becomes the character after it, a letter the one before it; so it is
-- again a hexadecimal digit unless it was `9`, `a` or `A`, and the response is never the same.
pub alter_one_response_byte_sound :
    (response altered : Text)
    → alter_one_response_byte response ≡ ok altered
    → (start : Text) × (rest : Text) × (rotated : Text) × (response ≡ (start ++ marker) ++ rest)
      × (altered ≡ (start ++ marker) ++ rotated)
      × Rotated rest rotated
      × (altered ≢ response)
unfolding alter_one_response_byte
alter_one_response_byte_sound response altered e =
    let ((a, rest), found, e1) =
      >>=-eq-ok (context no_value_to_alter (split_after marker response)) _ e in
    let (rotated, turned, e2) = >>=-eq-ok (context no_digit_to_alter (rotate_first rest)) _ e1 in
    let (u, differs, e3) = >>=-eq-ok (bail_if (text_eq (a ++ rotated) response) no_op) _ e2 in
    let (parts, start, ends) =
      split_after-eq-some marker response a rest (context-eq-ok _ _ found) in
    let result : altered ≡ a ++ rotated = sym (ok-injective _ _ e3) in
    let r = rotate_first-Rotated rest rotated (context-eq-ok _ _ turned) in
    (
      start,
      rest,
      rotated,
      parts ∙ ap (λ x. x ++ rest) ends,
      result ∙ ap (λ x. x ++ rotated) ends,
      r,
      (λ same. Rotated-changes a rest rotated r (sym result ∙ same ∙ parts)),
    )

-- The last test of the function never fails: every response in which a digit is found is altered.
pub alter_one_response_byte-not-no_op :
    (response : Text) → alter_one_response_byte response ≢ err no_op
unfolding alter_one_response_byte
alter_one_response_byte-not-no_op response e = elim (Option-cases (split_after marker response)) [
  | inl nothing ↦ absurd (ground arith)
  | inr ((a, rest), found) ↦ elim (Option-cases (rotate_first rest)) [
    | inl nothing ↦ absurd (ground arith)
    | inr (rotated, turned) ↦
        let (parts, _, _) = split_after-eq-some marker response a rest found in
        Rotated-changes a rest rotated (rotate_first-Rotated rest rotated turned)
          ((text_eq_iff _ _).0 (ground arith) ∙ parts)
  ]
]
