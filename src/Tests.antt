-- ===== src/Tests.antt =====
-- Concrete instances of the crates that the program calls, for the tests: small numbers as field
-- elements, with the sum of the inputs as hash.
pub mod Codec
pub mod World
pub mod Trees
pub mod Served
pub mod Audits
pub mod Parties
pub mod Fetches
pub mod Nodes
pub mod Seeds
pub mod Reseeded
pub mod Mocks
pub mod Commands
pub mod Programs
pub mod Proxies
use graph_privacy_showcase_d.Common.{
  ℕ, zero, suc, ◌+◌, ◌*◌, ◌-◌, ◌/◌, ◌%◌, ◌^◌, ◌<◌, ◌≤◌, Bool, true, false, ◌&&◌, Option, none, some,
  List, [], ◌∷◌, ◌++◌, ◌≡◌, refl, sym, ap, ◌∙◌, arith, ltb, ◌==◌, if◌then◌else◌, is_empty, all,
  dec_lt, length, All, Result, ok, err,
}
use graph_privacy_showcase_d.Common.Text.{Text, codes, decimal, decimal_digits, is_ascii_hexdigit}
use graph_privacy_showcase_d.Field.{FieldOps, modulus}
use graph_privacy_showcase_d.Field.Codec.{FieldLaws, hex_text, hex_value, limbs_value, fr_value}
use mathlib.Core.Path.{subst}
use native.Mathlib.Bridge.{le_prop}

-- The number that decimal digits stand for.
abbrev dec_from : ℕ → Text → ℕ
dec_from acc [] = acc
dec_from acc (c ∷ s) = dec_from (acc * 10 + (c - b'0')) s

dec_from-append :
    (acc : ℕ) (s : Text) (c : ℕ) → dec_from acc (s ++ c ∷ []) ≡ dec_from acc s * 10 + (c - b'0')
dec_from-append acc [] c = refl
dec_from-append acc (d ∷ s) c = dec_from-append (acc * 10 + (d - b'0')) s c

dec_from-decimal_digits : (fuel n : ℕ) → n < fuel → dec_from 0 (decimal_digits fuel n) ≡ n
unfolding decimal_digits
dec_from-decimal_digits zero n h = absurd (omega arith)
dec_from-decimal_digits (suc fuel) n h = ground (
  arith,
  dec_from-append 0 (decimal_digits fuel (n / 10)) (b'0' + n % 10),
  dec_from-decimal_digits fuel (n / 10),
)

abbrev pub Element : Type 0
Element = (n : ℕ) × (n < modulus)

abbrev limbs : ℕ → List ℕ
limbs n = n % 2 ^ 64 ∷ n / 2 ^ 64 % 2 ^ 64 ∷ n / 2 ^ 128 % 2 ^ 64 ∷ n / 2 ^ 192 % 2 ^ 64 ∷ []

abbrev sum : List Element → ℕ
sum [] = 0
sum (x ∷ xs) = x.0 + sum xs

abbrev decided : (n : ℕ) → Dec (n < modulus) → Option Element
decided n (yes p) = some (n, p)
decided n (no q) = none

abbrev element : ℕ → Option Element
element n = decided n (dec_lt n modulus)

pub below : (n : ℕ) → n % modulus < modulus
below n = omega arith

abbrev pub test_field : FieldOps
test_field = record {
  Fr = Element;
  parse_bytes = λ s radix. some (hex_value s);
  to_str_radix = λ n radix. decimal n;
  from_str = λ s. element (dec_from 0 s);
  into_repr = λ f. limbs f.0;
  hash = λ xs. (sum xs % modulus, below (sum xs));
  hex_encode = hex_text;
}

element-some : (n : ℕ) (p : n < modulus) → element n ≡ some (n, p)
element-some n p = by_dec (dec_lt n modulus)
  where
    by_dec : (d : Dec (n < modulus)) → decided n d ≡ some (n, p)
    by_dec (yes q) = ap (λ r. some (n, r)) (le_prop q p)
    by_dec (no q) = absurd (q p)

pub limbs-value : (n : ℕ) → n < modulus → limbs_value (limbs n) ≡ n
unfolding limbs_value
limbs-value n h = omega arith

pub from_decimal : (n : ℕ) (h : n < modulus) → element (dec_from 0 (decimal n)) ≡ some (n, h)
unfolding decimal
from_decimal n h = ap element (dec_from-decimal_digits (suc n) n (omega arith)) ∙ element-some n h

pub same_element : (f g : Element) → f.0 ≡ g.0 → f ≡ g
same_element (n, p) (m, q) e =
    subst (λ k. (r : k < modulus) → Path Element (n, p) (k, r)) e
      (λ r. ap (λ s. (n, s)) (le_prop p r)) q

abbrev pub test_laws : FieldLaws test_field
test_laws = record {
  parse_hex = λ s h k. refl;
  print_decimal = λ n. refl;
  from_decimal = λ n h. ((n, h), from_decimal n h, limbs-value n h);
  repr_length = λ f. refl;
  repr_limb = λ f. (omega arith, (omega arith, (omega arith, (omega arith, tt))));
  repr_reduced = λ (n, h). rw (limbs-value n h) h;
  repr_injective =
      λ (n, h) (m, k) e. same_element (n, h) (m, k) (sym (limbs-value n h) ∙ e ∙ limbs-value m k);
  encode_hex = λ bs. refl;
}

pub below_modulus : (n : ℕ) → ltb n modulus ≡ true → n < modulus
below_modulus n h = ground arith
