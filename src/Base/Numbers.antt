-- ===== src/Base/Numbers.antt =====
-- `strconv.ParseUint(s, 0, bits)` and `strconv.ParseInt(s, 0, bits)`: base prefixes, underscores and
-- the range of the result. A syntax error and a range error are both `none`.
pub mod Prints
use otcat.Base.Tests.{ltb, leb, ◌==◌, if◌then◌else◌, Bool-cases}
use otcat.Base.Literals.{Text}
use otcat.Base.Int.{ℤ, pos, negsuc}
use Prim.Native.Nat.{ℕ, zero, suc, ◌+◌, ◌-◌, ◌*◌, ◌^◌, ◌<◌}
use mathlib.Core.Path.{◌≡◌}
use mathlib.Core.Logic.{inl, inr}
use mathlib.Core.Bool.{Bool, true, false, not, ◌&&◌, ◌||◌}
use mathlib.Core.Option.{Option, none, some}
use mathlib.Core.List.{[], ◌∷◌}
use native.Mathlib.Omega.{arith}

-- `c | ('x' - 'X')`, on the letters and digits that are compared with its results.
lower : ℕ → ℕ
lower c = if leb b'A' c && leb c b'Z' then c + 32 else c

-- The value of a digit in base 36; 36 for any other character.
digit_value : ℕ → ℕ
unfolding lower
digit_value c =
    if leb b'0' c && leb c b'9'
    then c - b'0'
    else if leb b'a' (lower c) && leb (lower c) b'z'
    then lower c - b'a' + 10
    else 36

-- The digits of a number in a base; underscores are passed over here and checked by `underscore_ok`.
digits_from : ℕ → ℕ → Text → Option ℕ
unfolding digit_value
digits_from base n [] = some n
digits_from base n (c ∷ s) =
    if c == b'_' || ltb (digit_value c) base
    then digits_from base (if c == b'_' then n else n * base + digit_value c) s
    else none

-- The base that the prefix names, and the digits behind it.
split_base : Text → ℕ × Text
unfolding lower
split_base (zero_char ∷ c ∷ d ∷ s) =
    if not (zero_char == b'0')
    then (10, zero_char ∷ c ∷ d ∷ s)
    else if lower c == b'b'
    then (2, d ∷ s)
    else if lower c == b'o'
    then (8, d ∷ s)
    else if lower c == b'x'
    then (16, d ∷ s)
    else (8, c ∷ d ∷ s)
split_base (c ∷ s) = if c == b'0' then (8, s) else (10, c ∷ s)
split_base [] = (10, [])

-- The scan of `underscoreOK`: `seen` is '0' behind a digit or the prefix, '_' behind an underscore,
-- '^' at the start and '!' behind any other character.
underscore_scan : Bool → ℕ → Text → Bool
unfolding lower
underscore_scan hex seen [] = not (seen == b'_')
underscore_scan hex seen (c ∷ s) =
    let rest =
      underscore_scan hex
        (if (leb b'0' c && leb c b'9') || (hex && leb b'a' (lower c) && leb (lower c) b'f')
          then b'0'
          else if c == b'_'
          then b'_'
          else b'!')
        s in
    if (leb b'0' c && leb c b'9') || (hex && leb b'a' (lower c) && leb (lower c) b'f')
    then rest
    else if c == b'_'
    then (seen == b'0') && rest
    else not (seen == b'_') && rest

underscore_ok : Text → Bool
unfolding lower underscore_scan
underscore_ok (z ∷ c ∷ s) =
    let prefixed = z == b'0' && (lower c == b'b' || lower c == b'o' || lower c == b'x') in
    if prefixed
    then underscore_scan (lower c == b'x') b'0' s
    else underscore_scan false b'^' (z ∷ c ∷ s)
underscore_ok s = underscore_scan false b'^' s

unsigned_digits : Text → Option ℕ
unfolding split_base digits_from
unsigned_digits s = let (base, digits) = split_base s in digits_from base 0 digits

in_range : ℕ → Option ℕ → Option ℕ
in_range bits none = none
in_range bits (some n) = if ltb n (2 ^ bits) then some n else none

unfoldable pub parse_uint_base0 : Text → ℕ → Option ℕ
unfolding unsigned_digits underscore_ok in_range
parse_uint_base0 [] bits = none
parse_uint_base0 (c ∷ s) bits =
    if underscore_ok (c ∷ s) then in_range bits (unsigned_digits (c ∷ s)) else none

-- `ParseInt` behind the sign: -2^(bits-1) is in range, 2^(bits-1) is not.
unfoldable pub apply_sign : Bool → ℕ → Option ℕ → Option ℤ
apply_sign minus bits none = none
apply_sign true bits (some zero) = some (pos 0)
apply_sign true bits (some (suc n)) = if leb (suc n) (2 ^ (bits - 1)) then some (negsuc n) else none
apply_sign false bits (some n) = if ltb n (2 ^ (bits - 1)) then some (pos n) else none

unfoldable pub parse_int_base0 : Text → ℕ → Option ℤ
unfolding apply_sign
parse_int_base0 [] bits = none
parse_int_base0 (c ∷ s) bits =
    if c == b'-'
    then apply_sign true bits (parse_uint_base0 s bits)
    else if c == b'+'
    then apply_sign false bits (parse_uint_base0 s bits)
    else apply_sign false bits (parse_uint_base0 (c ∷ s) bits)

in_range-lt : (bits n : ℕ) (o : Option ℕ) → in_range bits o ≡ some n → n < 2 ^ bits
unfolding in_range
in_range-lt bits n none e = cc
in_range-lt bits n (some m) e = ground arith

-- A number that is read fits the width asked for.
pub parse_uint_base0-lt : (s : Text) (bits n : ℕ) → parse_uint_base0 s bits ≡ some n → n < 2 ^ bits
unfolding parse_uint_base0
parse_uint_base0-lt [] bits n h = cc
parse_uint_base0-lt (c ∷ s) bits n h = elim (Bool-cases (underscore_ok (c ∷ s))) [
  | inl good ↦ in_range-lt bits n (unsigned_digits (c ∷ s)) (rw good at h)
  | inr bad ↦ cc (rw bad at h)
]
