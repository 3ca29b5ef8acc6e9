-- ===== src/Field/Roundtrip.antt =====
-- Reading a field element from text after printing it, and the canonical spelling (field.rs).
use graph_privacy_showcase_d.Common.{
  ℕ, ◌<◌, ◌≤◌, false, List, ◌++◌, reverse, ◌≡◌, sym, ap, ◌∙◌, arith, leb, length, take, replicate,
  is_empty, length-reverse, ok, err, not_a_field_element, >>=-eq-ok, Bool-cases, inl, inr, ◌↔◌,
  lt→leb_false, le→leb, leb_false→lt, ok-injective,
}
use graph_privacy_showcase_d.Common.Text.{Text, codes}
use graph_privacy_showcase_d.Field.{
  FieldOps, modulus, limbs_bytes, fr_from_biguint, clean_hex, fr_from_hex, fr_to_bytes32, fr_to_hex,
  unwrap_fr, normalize_bytes32_hex,
}
use graph_privacy_showcase_d.Field.Codec.{
  FieldLaws, fr_value, hex_text, hex_value, all-hex_text, hex_value-hex_text, be_value-reverse,
  le_value-limbs_bytes, length-limbs_bytes, limbs_bytes-IsByte, reverse-IsByte, take_of_length,
  length-hex_text, is_empty_of_pos,
}
use graph_privacy_showcase_d.Field.Spelling.{
  IsHex, clean_hex_prefixed, unwrap_digits, unwrap_wallet,
}

module _ (F : FieldOps) (L : FieldLaws F) where
  open F use {Fr}

  biguint_ok :
      (n : ℕ) (s : Text)
      → n < modulus
      → (f : Fr) × (fr_from_biguint F n s ≡ ok f) × (fr_value F f ≡ n)
  unfolding fr_from_biguint
  biguint_ok n s h =
      let (f, parsed, value) = L.from_decimal n h in
      (f, rw (lt→leb_false n modulus h, L.print_decimal n, parsed), value)

  biguint-eq-ok : (n : ℕ) (s : Text) (f : Fr) → fr_from_biguint F n s ≡ ok f → fr_value F f ≡ n
  unfolding fr_from_biguint
  biguint-eq-ok n s f e = elim (Bool-cases (leb modulus n)) [
    | inl big ↦ absurd (ground arith)
    | inr small ↦
        let (g, parsed, value) = L.from_decimal n (leb_false→lt modulus n small) in
        let read : fr_from_biguint F n s ≡ ok g = rw (small, L.print_decimal n, parsed) in
        let same : f ≡ g = ok-injective f g (sym e ∙ read) in rw same value
  ]

  read_digits :
      (s : Text)
      → is_empty (clean_hex s) ≡ false
      → IsHex (clean_hex s)
      → fr_from_hex F s ≡ fr_from_biguint F (hex_value (clean_hex s)) s
  unfolding fr_from_hex
  read_digits s h k = rw (h, k, L.parse_hex (clean_hex s) h k)

  shape_of_ok :
      (s : Text) (f : Fr)
      → fr_from_hex F s ≡ ok f
      → (is_empty (clean_hex s) ≡ false) × IsHex (clean_hex s)
  unfolding fr_from_hex
  shape_of_ok s f e = (ground arith, ground arith)

  -- A text is read as the element f exactly when what is left of it without white space and prefixes
  -- is not empty, holds only hexadecimal digits, and stands for the number of f.
  pub fr_from_hex_iff :
      (s : Text) (f : Fr)
      → (fr_from_hex F s ≡ ok f) ↔ (
          (is_empty (clean_hex s) ≡ false)
          × IsHex (clean_hex s)
          × (hex_value (clean_hex s) ≡ fr_value F f))
  fr_from_hex_iff s f = (read, print)
    where
      read :
          fr_from_hex F s ≡ ok f
          → (is_empty (clean_hex s) ≡ false)
            × IsHex (clean_hex s)
            × (hex_value (clean_hex s) ≡ fr_value F f)
      read e =
          let (h, k) = shape_of_ok s f e in
          (h, k, sym (biguint-eq-ok (hex_value (clean_hex s)) s f (sym (read_digits s h k) ∙ e)))

      print :
          (is_empty (clean_hex s) ≡ false)
            × IsHex (clean_hex s)
            × (hex_value (clean_hex s) ≡ fr_value F f)
          → fr_from_hex F s ≡ ok f
      print (h, k, v) =
          let (g, parsed, value) =
            biguint_ok (hex_value (clean_hex s)) s (rw v (L.repr_reduced f)) in
          rw (read_digits s h k, parsed) (ap ok (L.repr_injective g f (value ∙ v)))

  -- If what is left of a text without white space and prefixes is not empty, holds only hexadecimal
  -- digits, and stands for a number at or above the field order, the text is refused.
  pub fr_from_hex_too_big :
      (s : Text)
      → is_empty (clean_hex s) ≡ false
      → IsHex (clean_hex s)
      → modulus ≤ hex_value (clean_hex s)
      → fr_from_hex F s ≡ err (not_a_field_element s)
  unfolding fr_from_biguint
  fr_from_hex_too_big s h k m = rw (read_digits s h k, le→leb modulus _ m)

  -- The digits that `fr_to_hex` prints.
  digits_of : Fr → Text
  digits_of f = hex_text (reverse (limbs_bytes (F.into_repr f)))

  bytes : Fr → List ℕ
  bytes f = limbs_bytes (F.into_repr f)

  length-bytes : (f : Fr) → length (bytes f) ≡ 32
  unfolding bytes
  length-bytes f = omega (arith, length-limbs_bytes (F.into_repr f), L.repr_length f)

  -- The array has exactly the bytes of the four limbs.
  bytes32 : (f : Fr) → fr_to_bytes32 F f ≡ reverse (bytes f)
  unfolding fr_to_bytes32 bytes
  bytes32 f =
      let e : take 32 (bytes f ++ replicate 32 0) ≡ bytes f =
        take_of_length 32 (bytes f) (replicate 32 0) (length-bytes f) in
      ap reverse e

  digits_IsHex : (f : Fr) → IsHex (digits_of f)
  unfolding digits_of
  digits_IsHex f = all-hex_text _ (reverse-IsByte _ (limbs_bytes-IsByte (F.into_repr f)))

  fr_to_hex_digits : (f : Fr) → fr_to_hex F f ≡ codes "0x" ++ digits_of f
  unfolding fr_to_hex digits_of bytes
  fr_to_hex_digits f = rw (L.encode_hex (fr_to_bytes32 F f), bytes32 f)

  hex_value-digits_of : (f : Fr) → hex_value (digits_of f) ≡ fr_value F f
  unfolding digits_of
  hex_value-digits_of f =
      hex_value-hex_text _ (reverse-IsByte _ (limbs_bytes-IsByte (F.into_repr f)))
      ∙ be_value-reverse (limbs_bytes (F.into_repr f))
      ∙ le_value-limbs_bytes (F.into_repr f) (L.repr_limb f)

  length-digits_of : (f : Fr) → length (digits_of f) ≡ 64
  unfolding digits_of bytes
  length-digits_of f = omega (
    arith,
    length-hex_text (reverse (limbs_bytes (F.into_repr f))),
    length-reverse {0} (limbs_bytes (F.into_repr f)),
    length-bytes f,
  )

  digits_not_empty : (f : Fr) → is_empty (digits_of f) ≡ false
  digits_not_empty f = is_empty_of_pos (digits_of f) (omega (arith, length-digits_of f))

  -- The canonical text of an element is read back as that element.
  pub fr_from_hex-fr_to_hex : (f : Fr) → fr_from_hex F (fr_to_hex F f) ≡ ok f
  fr_from_hex-fr_to_hex f = rw (fr_to_hex_digits f) (
      (fr_from_hex_iff (codes "0x" ++ digits_of f) f).1 (
        rw (clean_hex_prefixed (digits_of f) (digits_IsHex f))
          (digits_not_empty f, digits_IsHex f, hex_value-digits_of f)))

  -- The canonical text has 66 characters.
  pub length-fr_to_hex : (f : Fr) → length (fr_to_hex F f) ≡ 66
  length-fr_to_hex f = rw (fr_to_hex_digits f) (omega (arith, length-digits_of f))

  -- Two field elements with the same canonical text are the same.
  pub fr_to_hex-injective : (f g : Fr) → fr_to_hex F f ≡ fr_to_hex F g → f ≡ g
  fr_to_hex-injective f g e =
      ok-injective f g
        (sym (fr_from_hex-fr_to_hex f) ∙ ap (fr_from_hex F) e ∙ fr_from_hex-fr_to_hex g)

  unwrap_canonical : (f : Fr) → unwrap_fr (fr_to_hex F f) ≡ fr_to_hex F f
  unwrap_canonical f = rw (fr_to_hex_digits f) (unwrap_digits (digits_of f) (digits_IsHex f))

  -- The spelling `Fr(0x…)` of the wallet is read as the element inside.
  pub normalize-wallet_spelling :
      (f : Fr)
      → normalize_bytes32_hex F (codes "Fr(" ++ fr_to_hex F f ++ codes ")") ≡ ok (fr_to_hex F f)
  unfolding normalize_bytes32_hex
  normalize-wallet_spelling f =
      rw (fr_to_hex_digits f, unwrap_wallet (digits_of f) (digits_IsHex f))
        (rw (sym (fr_to_hex_digits f), fr_from_hex-fr_to_hex f))

  pub normalize_canonical : (f : Fr) → normalize_bytes32_hex F (fr_to_hex F f) ≡ ok (fr_to_hex F f)
  unfolding normalize_bytes32_hex
  normalize_canonical f = rw (unwrap_canonical f, fr_from_hex-fr_to_hex f)

  pub normalize-eq-ok :
      (s t : Text)
      → normalize_bytes32_hex F s ≡ ok t
      → (f : Fr) × (fr_from_hex F (unwrap_fr s) ≡ ok f) × (t ≡ fr_to_hex F f)
  unfolding normalize_bytes32_hex
  normalize-eq-ok s t e =
      let (f, read, printed) =
        >>=-eq-ok (fr_from_hex F (unwrap_fr s)) (λ g. ok (fr_to_hex F g)) e in
      (f, read, ok-injective t (fr_to_hex F f) (sym printed))

  -- Normalising a text a second time changes nothing.
  pub normalize_idempotent :
      (s t : Text) → normalize_bytes32_hex F s ≡ ok t → normalize_bytes32_hex F t ≡ ok t
  normalize_idempotent s t e =
      let (f, read, printed) = normalize-eq-ok s t e in rw printed (normalize_canonical f)
