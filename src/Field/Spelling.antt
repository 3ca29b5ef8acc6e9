-- ===== src/Field/Spelling.antt =====
-- What the trimming of field.rs leaves of the spellings that it accepts.
use graph_privacy_showcase_d.Common.{
  ℕ, zero, suc, true, false, none, some, [], ◌∷◌, ◌++◌, ◌≡◌, refl, ap, arith, ◌==◌, length, all,
  All, All-append, Bool-cases, ==_iff, ==_refl, inl, inr,
}
use graph_privacy_showcase_d.Common.Text.{
  Text, codes, trim_none, trim_start_matches, strip_copies, strip_prefix, drop_while_end_none,
  drop_while_end_snoc, is_ascii_hexdigit, is_whitespace,
}
use graph_privacy_showcase_d.Field.{clean_hex, unwrap_fr, is_close}
use graph_privacy_showcase_d.Field.Codec.{hexdigit-not-whitespace}

-- A text that holds only hexadecimal digits.
abbrev pub IsHex : Text → Type 0
IsHex s = all is_ascii_hexdigit s ≡ true

hex-not-whitespace : (s : Text) → IsHex s → All (λ c. is_whitespace c ≡ false) s
hex-not-whitespace [] h = tt
hex-not-whitespace (c ∷ s) h =
    (hexdigit-not-whitespace c (ground arith), hex-not-whitespace s (ground arith))

hex-no_prefix :
    (s : Text) (p : ℕ)
    → is_ascii_hexdigit p ≡ false
    → IsHex s
    → strip_prefix (b'0' ∷ p ∷ []) s ≡ none
unfolding strip_prefix
hex-no_prefix [] p q h = refl
hex-no_prefix (c ∷ []) p q h = ground arith
hex-no_prefix (c ∷ d ∷ s) p q h = elim (Bool-cases (p == d)) [
  | inl same ↦
      let d_hex : is_ascii_hexdigit d ≡ true = ground arith in
      let e : is_ascii_hexdigit p ≡ is_ascii_hexdigit d =
        ap is_ascii_hexdigit ((==_iff p d).0 same) in
      absurd (cc)
  | inr other ↦ ground arith
]

-- Without the prefix, `trim_start_matches` leaves the text.
trim_start_matches-none : (p s : Text) → strip_prefix p s ≡ none → trim_start_matches p s ≡ s
unfolding trim_start_matches
trim_start_matches-none p [] h = refl
trim_start_matches-none p (c ∷ s) h = rw (h, strip_copies)

trim_start_matches_some :
    (a b : ℕ) (s : Text)
    → strip_prefix (a ∷ b ∷ []) s ≡ none
    → trim_start_matches (a ∷ b ∷ []) (a ∷ b ∷ s) ≡ s
unfolding trim_start_matches
trim_start_matches_some a b s h = rw (strip_once, strip_copies) (no_more (suc (length s)) h)
  where
    strip_once : strip_prefix (a ∷ b ∷ []) (a ∷ b ∷ s) ≡ some s
    strip_once = ground (arith, ==_refl a, ==_refl b)

    no_more : (fuel : ℕ) → strip_prefix (a ∷ b ∷ []) s ≡ none → strip_copies fuel (a ∷ b ∷ []) s ≡ s
    no_more zero q = refl
    no_more (suc fuel) q = rw (q, strip_copies)

clean_hex_bare : (s : Text) → IsHex s → clean_hex s ≡ s
unfolding clean_hex is_whitespace is_ascii_hexdigit
clean_hex_bare s h = rw (
  trim_none s (hex-not-whitespace s h),
  trim_start_matches-none (codes "0x") s (hex-no_prefix s b'x' refl h),
  trim_start_matches-none (codes "0X") s (hex-no_prefix s b'X' refl h),
)

pub clean_hex_prefixed : (s : Text) → IsHex s → clean_hex (codes "0x" ++ s) ≡ s
unfolding clean_hex is_whitespace is_ascii_hexdigit
clean_hex_prefixed s h = rw (
  trim_none (codes "0x" ++ s) (refl, (refl, hex-not-whitespace s h)),
  trim_start_matches_some b'0' b'x' s (hex-no_prefix s b'x' refl h),
  trim_start_matches-none (codes "0X") s (hex-no_prefix s b'X' refl h),
)

hex-not-close : (s : Text) → IsHex s → All (λ c. is_close c ≡ false) s
hex-not-close [] h = tt
hex-not-close (c ∷ s) h = (unfold is_ascii_hexdigit in ground arith, hex-not-close s (ground arith))

prefixed-not-whitespace :
    (s : Text) → IsHex s → All (λ c. is_whitespace c ≡ false) (codes "0x" ++ s)
unfolding is_whitespace
prefixed-not-whitespace s h = (refl, (refl, hex-not-whitespace s h))

wallet-not-whitespace :
    (s : Text)
    → IsHex s
    → All (λ c. is_whitespace c ≡ false) (codes "Fr(" ++ (codes "0x" ++ s) ++ codes ")")
unfolding is_whitespace
wallet-not-whitespace s h = (
  refl,
  (refl, (refl, (refl, (refl, All-append _ s (codes ")") (hex-not-whitespace s h) (refl, tt))))),
)

strip_wallet :
    (s : Text)
    → trim_start_matches (codes "Fr(") (codes "Fr(" ++ (codes "0x" ++ s) ++ codes ")")
      ≡ codes "0x" ++ s ++ codes ")"
unfolding trim_start_matches
strip_wallet s = refl

-- A canonical text has nothing to unwrap.
pub unwrap_digits : (s : Text) → IsHex s → unwrap_fr (codes "0x" ++ s) ≡ codes "0x" ++ s
unfolding unwrap_fr
unwrap_digits s h =
    let t = codes "0x" ++ s in
    rw (
      trim_none t (prefixed-not-whitespace s h),
      trim_start_matches-none (codes "Fr(") t (unfold strip_prefix in refl),
      drop_while_end_none is_close t (refl, (refl, hex-not-close s h)),
      trim_none t (prefixed-not-whitespace s h),
    )

pub unwrap_wallet :
    (s : Text)
    → IsHex s
    → unwrap_fr (codes "Fr(" ++ (codes "0x" ++ s) ++ codes ")") ≡ codes "0x" ++ s
unfolding unwrap_fr
unwrap_wallet s h =
    let t = codes "0x" ++ s in
    rw (
      trim_none (codes "Fr(" ++ t ++ codes ")") (wallet-not-whitespace s h),
      strip_wallet s,
      drop_while_end_snoc is_close t b')' refl,
      drop_while_end_none is_close t (refl, (refl, hex-not-close s h)),
      trim_none t (prefixed-not-whitespace s h),
    )
