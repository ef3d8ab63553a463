-- ===== src/Base/Numbers/Prints.antt =====
-- Decimal prints are read back by `strconv.ParseUint` in base 0.
use otcat.Base.Tests.{◌==◌, Bool-cases}
use otcat.Base.Literals.{Text}
use otcat.Base.Lists.{All}
use otcat.Base.Strings.{digits_before, itoa, decimal_from}
use otcat.Base.Strings.Trim.{IsDigit, itoa-digits, decimal_from-digits_before}
use otcat.Base.Numbers.{
  lower, digit_value, digits_from, split_base, underscore_scan, underscore_ok, unsigned_digits,
  in_range, parse_uint_base0,
}
use Prim.Native.Nat.{ℕ, zero, suc, ◌+◌, ◌-◌, ◌*◌, ◌/◌, ◌%◌, ◌^◌, ◌<◌}
use mathlib.Core.Path.{◌≡◌, refl}
use mathlib.Core.Logic.{◌≢◌, inl, inr}
use mathlib.Core.Bool.{true, false}
use mathlib.Core.Option.{some}
use mathlib.Core.List.{[], ◌∷◌}
use native.Mathlib.Omega.{arith}
use native.Mathlib.Nat.{pow-suc}

digits_from-digits : (s : Text) (n : ℕ) → All IsDigit s → digits_from 10 n s ≡ decimal_from n s
unfolding digits_from digit_value decimal_from
digits_from-digits [] n h = refl
digits_from-digits (c ∷ s) n h = ground (arith, h.0, digits_from-digits s (n * 10 + (c - b'0')) h.1)

underscore_scan-digits :
    (s : Text) (seen : ℕ) → seen ≢ b'_' → All IsDigit s → underscore_scan false seen s ≡ true
unfolding underscore_scan lower
underscore_scan-digits [] seen n h = ground (arith, n)
underscore_scan-digits (c ∷ s) seen n h =
    ground (arith, h.0, underscore_scan-digits s b'0' (λ e. omega arith) h.1)

-- The first character is not '0'.
abbrev Leads : Text → Type 0
Leads [] = ⊥
Leads (c ∷ s) = c ≢ b'0'

digits_before-Leads : (k n : ℕ) (s : Text) → 0 < n → n < 10 ^ k → Leads (digits_before k n s)
unfolding digits_before
digits_before-Leads zero n s h small = absurd (omega arith)
digits_before-Leads (suc k) n s h small = elim (Bool-cases (n / 10 == 0)) [
  | inl last ↦ rw last (λ e. ground (arith, last, h, e))
  | inr more ↦ rw more (
      digits_before-Leads k (n / 10) ((b'0' + n % 10) ∷ s) (ground (arith, more))
        (ground (arith, pow-suc 10 k)))
]

parse_uint_base0-digits :
    (s : Text) (n : ℕ)
    → Leads s
    → All IsDigit s
    → decimal_from 0 s ≡ some n
    → n < 2 ^ 64
    → parse_uint_base0 s 64 ≡ some n
unfolding parse_uint_base0 underscore_ok unsigned_digits split_base in_range
parse_uint_base0-digits [] n l h e small = absurd l
parse_uint_base0-digits (c ∷ []) n l h e small = ground (
  arith,
  l,
  underscore_scan-digits (c ∷ []) b'^' (λ e. omega arith) h,
  digits_from-digits (c ∷ []) 0 h,
  e,
)
parse_uint_base0-digits (c ∷ d ∷ []) n l h e small = ground (
  arith,
  l,
  underscore_scan-digits (c ∷ d ∷ []) b'^' (λ e. omega arith) h,
  digits_from-digits (c ∷ d ∷ []) 0 h,
  e,
)
parse_uint_base0-digits (c ∷ d ∷ f ∷ s) n l h e small = ground (
  arith,
  l,
  underscore_scan-digits (c ∷ d ∷ f ∷ s) b'^' (λ e. omega arith) h,
  digits_from-digits (c ∷ d ∷ f ∷ s) 0 h,
  e,
)

decimal_from-itoa : (n : ℕ) → n < 10 ^ 20 → decimal_from 0 (itoa n) ≡ some n
unfolding itoa decimal_from
decimal_from-itoa n h = decimal_from-digits_before 20 n [] h

-- A number below 2^64 is read back from its print.
pub parse_uint_base0-itoa : (n : ℕ) → n < 2 ^ 64 → parse_uint_base0 (itoa n) 64 ≡ some n
unfolding itoa digits_before parse_uint_base0 underscore_ok underscore_scan unsigned_digits
    split_base digits_from digit_value in_range
parse_uint_base0-itoa zero h = refl
parse_uint_base0-itoa (suc n) h =
    parse_uint_base0-digits (itoa (suc n)) (suc n)
      (digits_before-Leads 20 (suc n) [] (omega arith) (omega arith)) (itoa-digits (suc n))
      (decimal_from-itoa (suc n) (omega arith)) h
