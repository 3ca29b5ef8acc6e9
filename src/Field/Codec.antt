-- ===== src/Field/Codec.antt =====
-- What field.rs relies on of the crates for numbers, field elements and hexadecimal text, and the
-- values of the encodings.
use graph_privacy_showcase_d.Common.{
  ℕ, zero, suc, ◌+◌, ◌*◌, ◌/◌, ◌%◌, ◌-◌, ◌<◌, ◌^◌, true, false, some, List, [], ◌∷◌, ◌++◌, reverse,
  ◌≡◌, refl, ap, ◌∙◌, arith, if◌then◌else◌, leb, ltb, length, all, take, is_empty, length-append,
  All, All-append,
}
use mathlib.Core.List.{reverse-append}
use mathlib.Core.Path.{subst}
use graph_privacy_showcase_d.Common.Text.{Text, is_ascii_hexdigit, is_whitespace, decimal}
use graph_privacy_showcase_d.Field.{FieldOps, modulus, le_bytes, limbs_bytes}

-- The digit of `hex::encode` for a number below 16.
abbrev pub hex_digit : ℕ → ℕ
hex_digit d = if ltb d 10 then b'0' + d else b'a' + (d - 10)

abbrev pub hex_text : List ℕ → Text
hex_text [] = []
hex_text (b ∷ bs) = hex_digit (b / 16) ∷ hex_digit (b % 16) ∷ hex_text bs

-- The number that a hexadecimal digit stands for, in either case.
abbrev pub digit_value : ℕ → ℕ
digit_value c = if leb b'a' c then c - b'a' + 10 else if leb b'A' c then c - b'A' + 10 else c - b'0'

unfoldable pub hex_value_from : ℕ → Text → ℕ
hex_value_from acc [] = acc
hex_value_from acc (c ∷ s) = hex_value_from (acc * 16 + digit_value c) s

unfoldable pub hex_value : Text → ℕ
unfolding hex_value_from
hex_value s = hex_value_from 0 s

unfoldable pub be_value_from : ℕ → List ℕ → ℕ
be_value_from acc [] = acc
be_value_from acc (b ∷ bs) = be_value_from (acc * 256 + b) bs

unfoldable pub le_value : List ℕ → ℕ
le_value [] = 0
le_value (b ∷ bs) = b + 256 * le_value bs

unfoldable pub limbs_value : List ℕ → ℕ
limbs_value [] = 0
limbs_value (l ∷ ls) = l + 2 ^ 64 * limbs_value ls

module _ (F : FieldOps) where
  open F use {Fr, parse_bytes, to_str_radix, from_str, into_repr, hex_encode}

  -- The number that a field element stands for.
  abbrev pub fr_value : Fr → ℕ
  fr_value f = limbs_value (into_repr f)

  -- The documented behaviour of the crates.
  pub record FieldLaws : Type 0 where
    pub parse_hex :
        (s : Text)
        → is_empty s ≡ false
        → all is_ascii_hexdigit s ≡ true
        → parse_bytes s 16 ≡ some (hex_value s)
    pub print_decimal : (n : ℕ) → to_str_radix n 10 ≡ decimal n
    pub from_decimal :
        (n : ℕ) → n < modulus → (f : Fr) × (from_str (decimal n) ≡ some f) × (fr_value f ≡ n)
    pub repr_length : (f : Fr) → length (into_repr f) ≡ 4
    pub repr_limb : (f : Fr) → All (λ l. l < 2 ^ 64) (into_repr f)
    pub repr_reduced : (f : Fr) → fr_value f < modulus
    pub repr_injective : (f g : Fr) → fr_value f ≡ fr_value g → f ≡ g
    pub encode_hex : (bs : List ℕ) → hex_encode bs ≡ hex_text bs

abbrev pub IsByte : ℕ → Type 0
IsByte b = b < 256

hex_digit-value : (d : ℕ) → d < 16 → digit_value (hex_digit d) ≡ d
hex_digit-value d h = ground arith

pub hex_digit-is_ascii_hexdigit : (d : ℕ) → d < 16 → is_ascii_hexdigit (hex_digit d) ≡ true
unfolding is_ascii_hexdigit
hex_digit-is_ascii_hexdigit d h = ground arith

pub hexdigit-not-whitespace : (c : ℕ) → is_ascii_hexdigit c ≡ true → is_whitespace c ≡ false
unfolding is_ascii_hexdigit is_whitespace
hexdigit-not-whitespace c h = ground arith

pub all-hex_text : (bs : List ℕ) → All IsByte bs → all is_ascii_hexdigit (hex_text bs) ≡ true
all-hex_text [] h = refl
all-hex_text (b ∷ bs) (p, h) = ground (
  arith,
  hex_digit-is_ascii_hexdigit (b / 16),
  hex_digit-is_ascii_hexdigit (b % 16),
  all-hex_text bs h,
)

two_digits :
    (acc b : ℕ)
    → IsByte b
    → (acc * 16 + digit_value (hex_digit (b / 16))) * 16 + digit_value (hex_digit (b % 16))
      ≡ acc * 256 + b
two_digits acc b h =
    rw (hex_digit-value (b / 16) (omega arith), hex_digit-value (b % 16) (omega arith))
      (omega arith)

hex_value_from-hex_text :
    (acc : ℕ) (bs : List ℕ)
    → All IsByte bs
    → hex_value_from acc (hex_text bs) ≡ be_value_from acc bs
unfolding hex_value_from be_value_from
hex_value_from-hex_text acc [] h = refl
hex_value_from-hex_text acc (b ∷ bs) (p, h) =
    ap (λ v. hex_value_from v (hex_text bs)) (two_digits acc b p)
    ∙ hex_value_from-hex_text (acc * 256 + b) bs h

-- Printing bytes as hexadecimal digits keeps their number.
pub hex_value-hex_text :
    (bs : List ℕ) → All IsByte bs → hex_value (hex_text bs) ≡ be_value_from 0 bs
unfolding hex_value
hex_value-hex_text bs h = hex_value_from-hex_text 0 bs h

be_value_from-append :
    (acc : ℕ) (bs cs : List ℕ)
    → be_value_from acc (bs ++ cs) ≡ be_value_from (be_value_from acc bs) cs
unfolding be_value_from
be_value_from-append acc [] cs = refl
be_value_from-append acc (b ∷ bs) cs = be_value_from-append (acc * 256 + b) bs cs

pub be_value-reverse : (bs : List ℕ) → be_value_from 0 (reverse bs) ≡ le_value bs
unfolding be_value_from le_value
be_value-reverse [] = refl
be_value-reverse (b ∷ bs) =
    rw
      (
        reverse-append (b ∷ []) bs,
        be_value_from-append 0 (reverse bs) (b ∷ []),
        be_value-reverse bs,
      )
      (omega arith)

le_bytes-append-value :
    (l : ℕ) (bs : List ℕ) → l < 2 ^ 64 → le_value (le_bytes 8 l ++ bs) ≡ l + 2 ^ 64 * le_value bs
unfolding le_value
le_bytes-append-value l bs h = omega arith

-- The bytes of the limbs stand for the number that the limbs stand for.
pub le_value-limbs_bytes :
    (ls : List ℕ) → All (λ l. l < 2 ^ 64) ls → le_value (limbs_bytes ls) ≡ limbs_value ls
unfolding limbs_value
le_value-limbs_bytes [] h = unfold le_value in refl
le_value-limbs_bytes (l ∷ ls) (p, h) =
    le_bytes-append-value l (limbs_bytes ls) p
    ∙ ap (λ v. l + 2 ^ 64 * v) (le_value-limbs_bytes ls h)

length-le_bytes : (n l : ℕ) → length (le_bytes n l) ≡ n
length-le_bytes zero l = refl
length-le_bytes (suc n) l = ap suc (length-le_bytes n (l / 256))

le_bytes-IsByte : (n l : ℕ) → All IsByte (le_bytes n l)
le_bytes-IsByte zero l = tt
le_bytes-IsByte (suc n) l = (omega arith, le_bytes-IsByte n (l / 256))

pub length-limbs_bytes : (ls : List ℕ) → length (limbs_bytes ls) ≡ 8 * length ls
length-limbs_bytes [] = refl
length-limbs_bytes (l ∷ ls) =
    length-append (le_bytes 8 l) (limbs_bytes ls) ∙ omega (arith, length-limbs_bytes ls)

pub limbs_bytes-IsByte : (ls : List ℕ) → All IsByte (limbs_bytes ls)
limbs_bytes-IsByte [] = tt
limbs_bytes-IsByte (l ∷ ls) =
    All-append IsByte (le_bytes 8 l) (limbs_bytes ls) (le_bytes-IsByte 8 l) (limbs_bytes-IsByte ls)

pub reverse-IsByte : (bs : List ℕ) → All IsByte bs → All IsByte (reverse bs)
reverse-IsByte [] h = tt
reverse-IsByte (b ∷ bs) (p, h) =
    rw (reverse-append (b ∷ []) bs)
      (All-append IsByte (reverse bs) (b ∷ []) (reverse-IsByte bs h) (p, tt))

pub take-append_all {ℓ} : {A : Type ℓ} (xs ys : List A) → take (length xs) (xs ++ ys) ≡ xs
take-append_all [] ys = refl
take-append_all (x ∷ xs) ys = ap (λ r. x ∷ r) (take-append_all xs ys)

pub take_of_length {ℓ} :
    {A : Type ℓ} (n : ℕ) (xs ys : List A) → length xs ≡ n → take n (xs ++ ys) ≡ xs
take_of_length n xs ys e = subst (λ k. take k (xs ++ ys) ≡ xs) e (take-append_all xs ys)

pub length-hex_text : (bs : List ℕ) → length (hex_text bs) ≡ 2 * length bs
length-hex_text [] = refl
length-hex_text (b ∷ bs) = omega (arith, length-hex_text bs)

pub is_empty_of_pos : (s : List ℕ) → 0 < length s → is_empty s ≡ false
is_empty_of_pos [] h = absurd (omega arith)
is_empty_of_pos (c ∷ s) h = refl
