-- ===== src/Common/Text.antt =====
-- Rust text and bytes: a `str` is the list of its code points, a byte string the list of its bytes.
-- The functions are those of the standard library that the crate calls.
use Prim.Native.Nat.{ℕ, zero, suc, ◌+◌, ◌-◌, ◌*◌, ◌/◌, ◌%◌, ◌^◌}
use Prim.Native.Char.{code}
use Prim.Native.String.{String}
use mathlib.Core.Path.{◌≡◌, refl}
use mathlib.Core.Logic.{◌↔◌}
use mathlib.Core.Bool.{Bool, true, false, ◌&&◌, ◌||◌}
use mathlib.Core.Option.{Option, none, some}
use mathlib.Core.List.{List, [], ◌∷◌, ◌++◌, reverse, reverse-reverse, reverse-append}
use native.Mathlib.Omega.{arith}
use graph_privacy_showcase_d.Common.Tests.{ltb, leb, ◌==◌, if◌then◌else◌}
use graph_privacy_showcase_d.Common.Lists.{length, All, All-append}

abbrev pub Text : Type 0
Text = List ℕ

abbrev pub codes : String → Text
codes String.[] = []
codes (String.◌∷◌ c s) = code c ∷ codes s

-- `a == b` on strings and on byte arrays.
unfoldable pub text_eq : Text → Text → Bool
text_eq [] [] = true
text_eq [] (d ∷ t) = false
text_eq (c ∷ s) [] = false
text_eq (c ∷ s) (d ∷ t) = c == d && text_eq s t

pub text_eq_iff : (s t : Text) → (text_eq s t ≡ true) ↔ (s ≡ t)
unfolding text_eq
text_eq_iff [] [] = ((λ _. refl), (λ _. refl))
text_eq_iff [] (d ∷ t) = ((λ h. cc), (λ h. cc))
text_eq_iff (c ∷ s) [] = ((λ h. cc), (λ h. cc))
text_eq_iff (c ∷ s) (d ∷ t) = ground (arith, text_eq_iff s t)

pub text_eq_refl : (s : Text) → text_eq s s ≡ true
text_eq_refl s = (text_eq_iff s s).1 refl

pub text_eq_sound : (s t : Text) → text_eq s t ≡ true → s ≡ t
text_eq_sound s t = (text_eq_iff s t).0

-- `str::len`: the number of bytes in UTF-8.
abbrev pub len_utf8 : ℕ → ℕ
len_utf8 c = if ltb c 0x80 then 1 else if ltb c 0x800 then 2 else if ltb c 0x10000 then 3 else 4

abbrev pub byte_len : Text → ℕ
byte_len [] = 0
byte_len (c ∷ s) = len_utf8 c + byte_len s

-- `char::is_whitespace`: the code points with the property White_Space.
unfoldable pub is_whitespace : ℕ → Bool
is_whitespace c =
    leb 9 c && leb c 13
    || c == 32
    || c == 0x85
    || c == 0xa0
    || c == 0x1680
    || leb 0x2000 c && leb c 0x200a
    || c == 0x2028
    || c == 0x2029
    || c == 0x202f
    || c == 0x205f
    || c == 0x3000

-- `trim_start_matches(p)` for a test `p` on characters.
unfoldable pub drop_while : (ℕ → Bool) → Text → Text
drop_while p [] = []
drop_while p (c ∷ s) = if p c then drop_while p s else c ∷ s

-- `trim_end_matches(p)`
unfoldable pub drop_while_end : (ℕ → Bool) → Text → Text
unfolding drop_while
drop_while_end p s = reverse (drop_while p (reverse s))

unfoldable pub trim : Text → Text
unfolding is_whitespace drop_while drop_while_end
trim s = drop_while_end is_whitespace (drop_while is_whitespace s)

unfoldable pub strip_prefix : Text → Text → Option Text
strip_prefix [] s = some s
strip_prefix (p ∷ ps) [] = none
strip_prefix (p ∷ ps) (c ∷ s) = if p == c then strip_prefix ps s else none

-- `trim_start_matches(p)` for a text `p`: every leading copy is removed. The fuel is the length of
-- the text, and each copy that is removed is at least one character long.
unfoldable pub strip_copies : ℕ → Text → Text → Text
strip_copies zero p s = s
strip_copies (suc fuel) p s = elim (strip_prefix p s) [ none ↦ s | some r ↦ strip_copies fuel p r ]

unfoldable pub trim_start_matches : Text → Text → Text
unfolding strip_copies strip_prefix
trim_start_matches p s = strip_copies (length s) p s

unfoldable pub is_ascii_digit : ℕ → Bool
is_ascii_digit c = leb b'0' c && leb c b'9'

unfoldable pub is_ascii_hexdigit : ℕ → Bool
unfolding is_ascii_digit
is_ascii_hexdigit c = is_ascii_digit c || leb b'a' c && leb c b'f' || leb b'A' c && leb c b'F'

-- `to_lowercase`, on ASCII text (the crate applies it to hexadecimal addresses).
unfoldable pub lower_char : ℕ → ℕ
lower_char c = if leb b'A' c && leb c b'Z' then c + 32 else c

unfoldable pub to_lowercase : Text → Text
unfolding lower_char
to_lowercase [] = []
to_lowercase (c ∷ s) = lower_char c ∷ to_lowercase s

-- `str::parse` into an unsigned integer below `bound`: an optional plus sign and at least one digit.
unfoldable pub parse_digits : ℕ → ℕ → Text → Option ℕ
unfolding is_ascii_digit
parse_digits bound n [] = some n
parse_digits bound n (c ∷ s) =
    let more = parse_digits bound (n * 10 + (c - b'0')) s in
    if is_ascii_digit c && ltb (n * 10 + (c - b'0')) bound then more else none

abbrev non_empty_digits : ℕ → Text → Option ℕ
non_empty_digits bound [] = none
non_empty_digits bound (c ∷ s) = unfold parse_digits in parse_digits bound 0 (c ∷ s)

unfoldable pub parse_uint : ℕ → Text → Option ℕ
unfolding parse_digits
parse_uint bound [] = none
parse_uint bound (c ∷ s) =
    if c == b'+' then non_empty_digits bound s else non_empty_digits bound (c ∷ s)

abbrev pub u64_bound : ℕ
u64_bound = 2 ^ 64

unfoldable pub parse_u64 : Text → Option ℕ
unfolding parse_uint
parse_u64 s = parse_uint u64_bound s

-- `u64::to_string`: the decimal digits. The fuel exceeds the number of digits.
unfoldable pub decimal_digits : ℕ → ℕ → Text
decimal_digits zero n = []
decimal_digits (suc fuel) n = elim (ltb n 10) [
  | true ↦ (b'0' + n) ∷ []
  | false ↦ decimal_digits fuel (n / 10) ++ (b'0' + n % 10) ∷ []
]

unfoldable pub decimal : ℕ → Text
unfolding decimal_digits
decimal n = decimal_digits (suc n) n

drop_while_none : (p : ℕ → Bool) (s : Text) → All (λ c. p c ≡ false) s → drop_while p s ≡ s
unfolding drop_while
drop_while_none p [] h = refl
drop_while_none p (c ∷ s) h = rw h.0

All-reverse :
    (p : ℕ → Bool) (s : Text) → All (λ c. p c ≡ false) s → All (λ c. p c ≡ false) (reverse s)
All-reverse p [] h = tt
All-reverse p (c ∷ s) (q, h) =
    rw (reverse-append (c ∷ []) s) (All-append _ (reverse s) (c ∷ []) (All-reverse p s h) (q, tt))

-- A text with no character to trim at its ends is left as it is.
pub drop_while_end_none :
    (p : ℕ → Bool) (s : Text) → All (λ c. p c ≡ false) s → drop_while_end p s ≡ s
unfolding drop_while_end
drop_while_end_none p s h =
    rw (drop_while_none p (reverse s) (All-reverse p s h)) (reverse-reverse s)

pub trim_none : (s : Text) → All (λ c. is_whitespace c ≡ false) s → trim s ≡ s
unfolding trim
trim_none s h = rw (drop_while_none is_whitespace s h) (drop_while_end_none is_whitespace s h)

pub drop_while_end_snoc :
    (p : ℕ → Bool) (s : Text) (c : ℕ)
    → p c ≡ true
    → drop_while_end p (s ++ c ∷ []) ≡ drop_while_end p s
unfolding drop_while_end drop_while
drop_while_end_snoc p s c h = rw (reverse-append s (c ∷ []), h)
