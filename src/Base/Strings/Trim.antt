-- ===== src/Base/Strings/Trim.antt =====
-- Decimal prints are read back, and texts with no space or separator pass through unchanged.
use otcat.Base.Tests.{◌==◌, Bool-cases}
use otcat.Base.Literals.{Text}
use otcat.Base.Lists.{All}
use otcat.Base.Int.{pos}
use otcat.Base.Strings.{
  is_space, trim_left, trim_space, split, decimal_from, decimal, signed_64, atoi, digits_before,
  itoa,
}
use Prim.Native.Nat.{ℕ, zero, suc, ◌+◌, ◌/◌, ◌%◌, ◌^◌, ◌≤◌, ◌<◌}
use mathlib.Core.Path.{◌≡◌, refl, ◌∙◌}
use mathlib.Core.Logic.{◌≢◌, inl, inr}
use mathlib.Core.Bool.{false}
use mathlib.Core.Option.{some}
use mathlib.Core.List.{List, [], ◌∷◌, ◌++◌, reverse, cons-ne-nil, reverse-cons, reverse-reverse}
use native.Mathlib.Omega.{arith}
use native.Mathlib.Nat.{pow-suc}

abbrev pub Solid : ℕ → Type 0
Solid c = is_space c ≡ false

abbrev pub IsDigit : ℕ → Type 0
IsDigit c = (b'0' ≤ c) × (c ≤ b'9')

pub All-append {ℓ} :
    {A : Type 0} (P : A → Type ℓ) (xs ys : List A) → All P xs → All P ys → All P (xs ++ ys)
All-append P [] ys h k = k
All-append P (x ∷ xs) ys h k = (h.0, All-append P xs ys h.1 k)

All-reverse {ℓ} : {A : Type 0} (P : A → Type ℓ) (xs : List A) → All P xs → All P (reverse xs)
All-reverse P [] h = tt
All-reverse P (x ∷ xs) h =
    rw reverse-cons (All-append P (reverse xs) (x ∷ []) (All-reverse P xs h.1) (h.0, tt))

trim_left-Solid : (s : Text) → All Solid s → trim_left s ≡ s
unfolding trim_left
trim_left-Solid [] h = refl
trim_left-Solid (c ∷ s) h = rw h.0 refl

pub trim_space-Solid : (s : Text) → All Solid s → trim_space s ≡ s
unfolding trim_space
trim_space-Solid s h =
    rw (trim_left-Solid s h, trim_left-Solid (reverse s) (All-reverse Solid s h))
      (reverse-reverse s)

pub digit-Solid : (c : ℕ) → IsDigit c → Solid c
unfolding is_space
digit-Solid c h = ground arith

pub All-map {ℓ κ} :
    {A : Type 0} (P : A → Type ℓ) (Q : A → Type κ) (xs : List A)
    → ((x : A) → P x → Q x)
    → All P xs
    → All Q xs
All-map P Q [] f h = tt
All-map P Q (x ∷ xs) f h = (f x h.0, All-map P Q xs f h.1)

pub split-lacks : (sep : ℕ) (p : Text) → All (λ c. c ≢ sep) p → split sep p ≡ p ∷ []
unfolding split
split-lacks sep [] h = refl
split-lacks sep (c ∷ p) h = rw (split-lacks sep p h.1) (ground (arith, h.0))

pub split-append :
    (sep : ℕ) (p s : Text) → All (λ c. c ≢ sep) p → split sep (p ++ (sep ∷ s)) ≡ p ∷ split sep s
unfolding split
split-append sep [] s h = ground arith
split-append sep (c ∷ p) s h = rw (split-append sep p s h.1) (ground (arith, h.0))

pub digits_before-digits : (k n : ℕ) (s : Text) → All IsDigit s → All IsDigit (digits_before k n s)
unfolding digits_before
digits_before-digits zero n s h = h
digits_before-digits (suc k) n s h = elim (Bool-cases (n / 10 == 0)) [
  | inl last ↦ rw last (digit, h)
  | inr more ↦ rw more (digits_before-digits k (n / 10) ((b'0' + n % 10) ∷ s) (digit, h))
]
  where
    digit : IsDigit (b'0' + n % 10)
    digit = omega arith

pub decimal_from-digits_before :
    (k n : ℕ) (s : Text) → n < 10 ^ k → decimal_from 0 (digits_before k n s) ≡ decimal_from n s
unfolding digits_before decimal_from
decimal_from-digits_before zero n s h = let e : n ≡ 0 = omega arith in rw e refl
decimal_from-digits_before (suc k) n s h =
    ground (arith, pow-suc 10 k, decimal_from-digits_before k (n / 10) ((b'0' + n % 10) ∷ s))

digits_before-ne-nil : (k n d : ℕ) (s : Text) → digits_before k n (d ∷ s) ≢ []
unfolding digits_before
digits_before-ne-nil zero n d s = cons-ne-nil d s
digits_before-ne-nil (suc k) n d s = elim (Bool-cases (n / 10 == 0)) [
  | inl last ↦ rw last (cons-ne-nil (b'0' + n % 10) (d ∷ s))
  | inr more ↦ rw more (digits_before-ne-nil k (n / 10) (b'0' + n % 10) (d ∷ s))
]

digits_before-suc-ne-nil : (k n : ℕ) → digits_before (suc k) n [] ≢ []
unfolding digits_before
digits_before-suc-ne-nil k n = elim (Bool-cases (n / 10 == 0)) [
  | inl last ↦ rw last (cons-ne-nil (b'0' + n % 10) [])
  | inr more ↦ rw more (digits_before-ne-nil k (n / 10) (b'0' + n % 10) [])
]

pub itoa-digits : (n : ℕ) → All IsDigit (itoa n)
unfolding itoa
itoa-digits n = digits_before-digits 20 n [] tt

pub itoa-ne-nil : (n : ℕ) → itoa n ≢ []
unfolding itoa
itoa-ne-nil n = digits_before-suc-ne-nil 19 n

-- An unsigned text is read by `decimal`.
atoi-digits : (s : Text) → All IsDigit s → s ≢ [] → atoi s ≡ signed_64 false (decimal_from 0 s)
unfolding atoi decimal
atoi-digits [] h ne = absurd (ne refl)
atoi-digits (c ∷ s) h ne = ground (arith, h.0)

-- A number below 2^63 is read back from its print.
pub atoi-itoa : (n : ℕ) → n < 2 ^ 63 → atoi (itoa n) ≡ some (pos n)
unfolding signed_64
atoi-itoa n h = atoi-digits (itoa n) (itoa-digits n) (itoa-ne-nil n) ∙ rw read (ground arith)
  where
    read : decimal_from 0 (itoa n) ≡ some n
    read = unfold itoa decimal_from in decimal_from-digits_before 20 n [] (omega arith)
