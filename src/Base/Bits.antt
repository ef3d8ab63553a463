-- ===== src/Base/Bits.antt =====
-- Single bits of bytes: the masks `1 << uint(k%8)`, read and set.
use otcat.Base.Tests.{◌==◌, ltb, ltb→lt, if◌then◌else◌}
use otcat.Base.Lists.{length, set, All, length-set, get_or-set_self, get_or-set_ne}
use otcat.Base.Bytes.{Bytes, IsByte, at, set-IsByte, at-IsByte}
use Prim.Native.Nat.{ℕ, zero, suc, ◌+◌, ◌/◌, ◌%◌, ◌^◌, ◌<◌, ◌≤◌, bit_and, bit_or}
use mathlib.Core.Path.{◌≡◌, refl, ap, ◌∙◌}
use mathlib.Core.Bool.{Bool, true, false, not, ◌&&◌, ◌||◌}
use mathlib.Core.Logic.{◌≢◌}
use native.Mathlib.Omega.{arith}
use native.Mathlib.Decide.{ℕ_discrete}

-- `b & (1<<j) != 0`
unfoldable pub test_bit : ℕ → ℕ → Bool
test_bit b j = not (bit_and b (2 ^ j) == 0)

-- A test holds of every number under a bound; decided by running it.
all_under : ℕ → (ℕ → Bool) → Bool
all_under zero test = true
all_under (suc bound) test = all_under bound test && test bound

all_under_at :
    (bound : ℕ) (test : ℕ → Bool) (k : ℕ) → all_under bound test ≡ true → k < bound → test k ≡ true
unfolding all_under
all_under_at zero test k all small = absurd (omega arith)
all_under_at (suc bound) test k all small = ground (arith, all_under_at bound test k)

abbrev bool_eq : Bool → Bool → Bool
bool_eq true b = b
bool_eq false b = not b

bool_eq_lem : (a b : Bool) → bool_eq a b ≡ true → a ≡ b
bool_eq_lem a b h = ground arith

-- A set bit reads as 1, the others are unchanged; a byte stays a byte.
abbrev or_law : ℕ → ℕ → ℕ → Bool
or_law b i j = bool_eq (test_bit (bit_or b (2 ^ i)) j) ((i == j) || test_bit b j)

or_table : all_under 256 (λ b. all_under 8 (λ i. all_under 8 (λ j. or_law b i j))) ≡ true
unfolding all_under test_bit
or_table = refl

test_bit-bit_or :
    (b i j : ℕ)
    → b < 256
    → i < 8
    → j < 8
    → test_bit (bit_or b (2 ^ i)) j ≡ ((i == j) || test_bit b j)
test_bit-bit_or b i j hb hi hj = bool_eq_lem _ _ (
    all_under_at 8 (λ j. or_law b i j) j
      (all_under_at 8 (λ i. all_under 8 (λ j. or_law b i j)) i
        (all_under_at 256 (λ b. all_under 8 (λ i. all_under 8 (λ j. or_law b i j))) b or_table hb)
        hi)
      hj)

bit_or_table : all_under 256 (λ b. all_under 8 (λ i. ltb (bit_or b (2 ^ i)) 256)) ≡ true
unfolding all_under
bit_or_table = refl

bit_or-IsByte : (b i : ℕ) → b < 256 → i < 8 → bit_or b (2 ^ i) < 256
bit_or-IsByte b i hb hi = ltb→lt _ _ (
    all_under_at 8 (λ i. ltb (bit_or b (2 ^ i)) 256) i
      (all_under_at 256 (λ b. all_under 8 (λ i. ltb (bit_or b (2 ^ i)) 256)) b bit_or_table hb) hi)

test_bit-zero : (j : ℕ) → j < 8 → test_bit 0 j ≡ false
test_bit-zero j hj =
    bool_eq_lem _ _ (all_under_at 8 (λ j. bool_eq (test_bit 0 j) false) j zero_table hj)
  where
    zero_table : all_under 8 (λ j. bool_eq (test_bit 0 j) false) ≡ true
    zero_table = unfold all_under test_bit in refl

-- `b[base+k/8] & (1<<uint(k%8)) != 0`
unfoldable pub bit_at : Bytes → ℕ → ℕ → Bool
bit_at b base k = test_bit (at b (base + k / 8)) (k % 8)

-- `b[base+k/8] |= 1 << uint(k%8)`
unfoldable pub set_bit : Bytes → ℕ → ℕ → Bytes
set_bit b base k = set b (base + k / 8) (bit_or (at b (base + k / 8)) (2 ^ (k % 8)))

-- `for k := i; k < i+n; k++ { if f(k) { b[base+k/8] |= 1 << uint(k%8) } }`
unfoldable pub put_bits : (ℕ → Bool) → ℕ → ℕ → ℕ → Bytes → Bytes
put_bits f base zero i b = b
put_bits f base (suc n) i b = put_bits f base n (i + 1) (if f i then set_bit b base i else b)

pub set_bit-IsByte : (b : Bytes) (base k : ℕ) → All IsByte b → All IsByte (set_bit b base k)
unfolding set_bit
set_bit-IsByte b base k h =
    set-IsByte b _ _ h (bit_or-IsByte (at b (base + k / 8)) (k % 8) (at-IsByte b _ h) (omega arith))

pub length-set_bit : (b : Bytes) (base k : ℕ) → length (set_bit b base k) ≡ length b
unfolding set_bit
length-set_bit b base k = length-set b _ _

-- A set bit reads as 1 and the other bits of the buffer are unchanged.
pub bit_at-set_bit :
    (b : Bytes) (base i k : ℕ)
    → All IsByte b
    → base + i / 8 < length b
    → bit_at (set_bit b base i) base k ≡ ((i == k) || bit_at b base k)
unfolding bit_at set_bit
bit_at-set_bit b base i k hb h = elim (ℕ_discrete (i / 8) (k / 8)) [
  | yes e ↦
      rw
        (
          ← e,
          get_or-set_self b (base + i / 8) _ 0 h,
          test_bit-bit_or (at b (base + i / 8)) (i % 8) (k % 8) (at-IsByte b _ hb) (omega arith)
              (omega arith),
        )
        (ap (λ t. t || test_bit (at b (base + i / 8)) (k % 8)) (same e))
  | no ne ↦
      rw (get_or-set_ne b (base + i / 8) (base + k / 8) _ 0 (λ e. ne (omega arith))) (rw (other ne))
]
  where
    same : i / 8 ≡ k / 8 → (i % 8 == k % 8) ≡ (i == k)
    same e = ground arith

    other : i / 8 ≢ k / 8 → (i == k) ≡ false
    other ne = ground arith

abbrev put_bit : Bool → Bytes → ℕ → ℕ → Bytes
put_bit v b base i = if v then set_bit b base i else b

put_bit-IsByte :
    (v : Bool) (b : Bytes) (base i : ℕ) → All IsByte b → All IsByte (put_bit v b base i)
put_bit-IsByte true b base i h = set_bit-IsByte b base i h
put_bit-IsByte false b base i h = h

length-put_bit : (v : Bool) (b : Bytes) (base i : ℕ) → length (put_bit v b base i) ≡ length b
length-put_bit true b base i = length-set_bit b base i
length-put_bit false b base i = refl

bit_at-put_bit :
    (v : Bool) (b : Bytes) (base i k : ℕ)
    → All IsByte b
    → base + i / 8 < length b
    → bit_at (put_bit v b base i) base k ≡ ((v && (i == k)) || bit_at b base k)
bit_at-put_bit true b base i k hb h = bit_at-set_bit b base i k hb h
bit_at-put_bit false b base i k hb h = refl

pub put_bits-IsByte :
    (f : ℕ → Bool) (base n i : ℕ) (b : Bytes) → All IsByte b → All IsByte (put_bits f base n i b)
unfolding put_bits
put_bits-IsByte f base zero i b h = h
put_bits-IsByte f base (suc n) i b h =
    put_bits-IsByte f base n (i + 1) _ (put_bit-IsByte (f i) b base i h)

pub length-put_bits :
    (f : ℕ → Bool) (base n i : ℕ) (b : Bytes) → length (put_bits f base n i b) ≡ length b
unfolding put_bits
length-put_bits f base zero i b = refl
length-put_bits f base (suc n) i b =
    length-put_bits f base n (i + 1) _ ∙ length-put_bit (f i) b base i

-- The loop leaves the bytes in front of `base` alone.
pub at-put_bits_lt :
    (f : ℕ → Bool) (base n i j : ℕ) (b : Bytes) → j < base → at (put_bits f base n i b) j ≡ at b j
unfolding put_bits
at-put_bits_lt f base zero i j b h = refl
at-put_bits_lt f base (suc n) i j b h = at-put_bits_lt f base n (i + 1) j _ h ∙ step (f i)
  where
    step : (v : Bool) → at (put_bit v b base i) j ≡ at b j
    step true = unfold set_bit in get_or-set_ne b (base + i / 8) j _ 0 (λ e. omega arith)
    step false = refl

bit_at-put_bits_lt :
    (f : ℕ → Bool) (base n i k : ℕ) (b : Bytes)
    → All IsByte b
    → base + (i + n + 7) / 8 ≤ length b
    → k < i
    → bit_at (put_bits f base n i b) base k ≡ bit_at b base k
unfolding put_bits
bit_at-put_bits_lt f base zero i k b hb h lt = refl
bit_at-put_bits_lt f base (suc n) i k b hb h lt =
    bit_at-put_bits_lt f base n (i + 1) k _ (put_bit-IsByte (f i) b base i hb)
      (omega (arith, length-put_bit (f i) b base i)) (omega arith)
    ∙ bit_at-put_bit (f i) b base i k hb (omega arith)
    ∙ ground arith

-- The bit at index `k` of the loop's range is `f k`, if it was clear before.
pub bit_at-put_bits :
    (f : ℕ → Bool) (base n i k : ℕ) (b : Bytes)
    → All IsByte b
    → base + (i + n + 7) / 8 ≤ length b
    → bit_at b base k ≡ false
    → i ≤ k
    → k < i + n
    → bit_at (put_bits f base n i b) base k ≡ f k
unfolding put_bits
bit_at-put_bits f base zero i k b hb h clear lo hi = absurd (omega arith)
bit_at-put_bits f base (suc n) i k b hb h clear lo hi = elim (ℕ_discrete i k) [
  | yes e ↦
      bit_at-put_bits_lt f base n (i + 1) k _ (put_bit-IsByte (f i) b base i hb)
        (omega (arith, length-put_bit (f i) b base i)) (omega arith)
      ∙ bit_at-put_bit (f i) b base i k hb (omega arith)
      ∙ rw clear (rw (← e) (last (f i)))
  | no ne ↦
      bit_at-put_bits f base n (i + 1) k _ (put_bit-IsByte (f i) b base i hb)
        (omega (arith, length-put_bit (f i) b base i))
        (bit_at-put_bit (f i) b base i k hb (omega arith) ∙ rw clear (skip (f i) ne)) (omega arith)
        (omega arith)
]
  where
    last : (v : Bool) → (v && (i == i) || false) ≡ v
    last v = ground arith

    skip : (v : Bool) → i ≢ k → (v && (i == k) || false) ≡ false
    skip v ne = ground arith

-- A fresh buffer has no bit set.
pub bit_at-clear : (b : Bytes) (base k : ℕ) → at b (base + k / 8) ≡ 0 → bit_at b base k ≡ false
unfolding bit_at
bit_at-clear b base k h = rw h (test_bit-zero (k % 8) (omega arith))
