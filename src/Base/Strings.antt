-- ===== src/Base/Strings.antt =====
-- The parts of Go's strings and strconv that the program uses, over code points.
use otcat.Base.Tests.{ltb, leb, ◌==◌, if◌then◌else◌}
use otcat.Base.Literals.{Text, codes}
use otcat.Base.Lists.{length, All}
use otcat.Base.Int.{ℤ, pos, negsuc}
use Prim.Native.Nat.{ℕ, zero, suc, ◌+◌, ◌-◌, ◌*◌, ◌/◌, ◌%◌, ◌^◌, ◌≤◌, ◌<◌}
use mathlib.Core.Path.{◌≡◌, refl}
use mathlib.Core.Bool.{Bool, true, false, not, ◌&&◌, ◌||◌}
use mathlib.Core.Option.{Option, none, some}
use mathlib.Core.List.{List, [], ◌∷◌, ◌++◌, reverse, map}
use native.Mathlib.Omega.{arith}
pub mod Trim

-- `unicode.IsSpace`
unfoldable pub is_space : ℕ → Bool
is_space c =
    (leb 9 c && leb c 13)
    || c == 32
    || c == 0x85
    || c == 0xA0
    || c == 0x1680
    || (leb 0x2000 c && leb c 0x200A)
    || c == 0x2028
    || c == 0x2029
    || c == 0x202F
    || c == 0x205F
    || c == 0x3000

unfoldable pub trim_left : Text → Text
trim_left [] = []
trim_left (c ∷ s) = let rest = trim_left s in if is_space c then rest else c ∷ s

-- `strings.TrimSpace`
unfoldable pub trim_space : Text → Text
unfolding trim_left is_space
trim_space s = reverse (trim_left (reverse (trim_left s)))

-- `unicode.ToLower` on the characters whose lower case is ASCII: the capital letters, U+0130 and
-- U+212A. Every other character is left as it is, which no comparison with an ASCII text notices.
unfoldable pub lower_char : ℕ → ℕ
lower_char c =
    if leb b'A' c && leb c b'Z'
    then c + 32
    else if c == 0x130
    then b'i'
    else if c == 0x212A
    then b'k'
    else c

-- `strings.ToLower`
unfoldable pub to_lower : Text → Text
unfolding lower_char
to_lower = map lower_char

-- `s == t`
abbrev pub text_eq : Text → Text → Bool
text_eq [] [] = true
text_eq [] (d ∷ t) = false
text_eq (c ∷ s) [] = false
text_eq (c ∷ s) (d ∷ t) = c == d && text_eq s t

-- A `case` with several texts.
abbrev pub one_of : Text → List Text → Bool
one_of s [] = false
one_of s (t ∷ ts) = text_eq s t || one_of s ts

abbrev pub cons_head : ℕ → List Text → List Text
cons_head c [] = (c ∷ []) ∷ []
cons_head c (p ∷ ps) = (c ∷ p) ∷ ps

-- `strings.Split(s, sep)` for a separator of one character.
unfoldable pub split : ℕ → Text → List Text
split sep [] = [] ∷ []
split sep (c ∷ s) = let rest = split sep s in if c == sep then [] ∷ rest else cons_head c rest

abbrev pub is_digit : ℕ → Bool
is_digit c = leb b'0' c && leb c b'9'

-- The value of decimal digits behind `n`; `none` at any other character.
unfoldable pub decimal_from : ℕ → Text → Option ℕ
decimal_from n [] = some n
decimal_from n (c ∷ s) = if is_digit c then decimal_from (n * 10 + (c - b'0')) s else none

unfoldable pub decimal : Text → Option ℕ
unfolding decimal_from
decimal [] = none
decimal (c ∷ s) = decimal_from 0 (c ∷ s)

-- The range of Go's 64-bit `int`.
unfoldable pub signed_64 : Bool → Option ℕ → Option ℤ
signed_64 minus none = none
signed_64 true (some zero) = some (pos 0)
signed_64 true (some (suc n)) = if leb (suc n) (2 ^ 63) then some (negsuc n) else none
signed_64 false (some n) = if ltb n (2 ^ 63) then some (pos n) else none

-- `strconv.Atoi`; an error is `none`.
unfoldable pub atoi : Text → Option ℤ
unfolding decimal signed_64
atoi [] = none
atoi (c ∷ s) =
    if c == b'-'
    then signed_64 true (decimal s)
    else if c == b'+'
    then signed_64 false (decimal s)
    else signed_64 false (decimal (c ∷ s))

-- The decimal digits of `n` in front of `s`, for `n` below `10 ^ k`.
unfoldable pub digits_before : ℕ → ℕ → Text → Text
digits_before zero n s = s
digits_before (suc k) n s =
    let d : ℕ = b'0' + n % 10 in
    let more = digits_before k (n / 10) (d ∷ s) in if n / 10 == 0 then d ∷ s else more

-- `%d` for a number below 2^64, which has at most 20 digits.
unfoldable pub itoa : ℕ → Text
itoa n = digits_before 20 n []
