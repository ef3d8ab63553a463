-- ===== src/Runs/Durations.antt =====
-- Of the texts that time.ParseDuration reads, those that are a whole number of nanoseconds.
use otcat.Base.{
  ℕ, zero, suc, ◌-◌, ◌<◌, ◌^◌, ◌≡◌, refl, ap, ◌∙◌, subst, sym, Option, some, none, [], ◌∷◌, ◌++◌,
  ◌==◌, if◌then◌else◌, Text, codes, arith, false, length, length-append, take, drop, take-append,
  drop-append, All, ltb,
}
use otcat.Base.Int.{ℤ, pos, negsuc}
use otcat.Base.Strings.{itoa, one_of}
use otcat.Base.Strings.Trim.{itoa-digits, itoa-ne-nil, IsDigit}
use otcat.Base.Numbers.{parse_uint_base0}
use otcat.Base.Numbers.Prints.{parse_uint_base0-itoa}
use otcat.Cliapp.Parse.RoundTrip.{IsDuration}

abbrev pub duration_text : ℤ → Text
duration_text (pos n) = itoa n ++ codes "ns"
duration_text (negsuc n) = (b'-' ∷ itoa (suc n)) ++ codes "ns"

abbrev positive_ns : Option ℕ → Option ℤ
positive_ns none = none
positive_ns (some n) = if ltb n (2 ^ 63) then some (pos n) else none

abbrev negative_ns : Option ℕ → Option ℤ
negative_ns none = none
negative_ns (some zero) = some (pos 0)
negative_ns (some (suc n)) = if ltb n (2 ^ 63) then some (negsuc n) else none

-- The number of nanoseconds in front of the unit.
abbrev signed_ns : Text → Option ℤ
signed_ns [] = none
signed_ns (c ∷ s) =
    if c == b'-'
    then negative_ns (parse_uint_base0 s 64)
    else positive_ns (parse_uint_base0 (c ∷ s) 64)

unfoldable pub parse_duration : Text → Option ℤ
parse_duration s =
    if one_of (drop (length s - 2) s) (codes "ns" ∷ [])
    then signed_ns (take (length s - 2) s)
    else none

drop_all : (s : Text) → drop (length s) s ≡ []
drop_all [] = refl
drop_all (c ∷ s) = drop_all s

take_all : (s : Text) → take (length s) s ≡ s
take_all [] = refl
take_all (c ∷ s) = ap (λ t. c ∷ t) (take_all s)

parse_duration-ns : (s : Text) → parse_duration (s ++ codes "ns") ≡ signed_ns s
unfolding parse_duration
parse_duration-ns s =
    let e : length (s ++ codes "ns") - 2 ≡ length s = omega (arith, length-append s (codes "ns")) in
    let ending : drop (length s) (s ++ codes "ns") ≡ codes "ns" =
      drop-append (length s) s (codes "ns") (omega arith)
      ∙ ap (λ t. t ++ codes "ns") (drop_all s) in
    let front : take (length s) (s ++ codes "ns") ≡ s =
      take-append (length s) s (codes "ns") (omega arith) ∙ take_all s in
    rw (e, ending, front) refl

positive_itoa : (n : ℕ) → n < 2 ^ 63 → (s : Text) → itoa n ≡ s → signed_ns s ≡ some (pos n)
positive_itoa n h [] e = absurd (itoa-ne-nil n e)
positive_itoa n h (c ∷ s) e =
    let digit : IsDigit c = (subst (All IsDigit) e (itoa-digits n)).0 in
    let unsigned : (c == b'-') ≡ false = ground (arith, digit) in
    rw unsigned (
      ap (λ s. positive_ns (parse_uint_base0 s 64)) (sym e)
      ∙ ap positive_ns (parse_uint_base0-itoa n (omega (arith, h)))
      ∙ ground (arith, h))

pub printed : (d : ℤ) → IsDuration d → parse_duration (duration_text d) ≡ some d
printed (pos n) h = parse_duration-ns (itoa n) ∙ positive_itoa n h (itoa n) refl
printed (negsuc n) h =
    parse_duration-ns (b'-' ∷ itoa (suc n))
    ∙ ap negative_ns (parse_uint_base0-itoa (suc n) (omega (arith, h)))
    ∙ ground (arith, h)
