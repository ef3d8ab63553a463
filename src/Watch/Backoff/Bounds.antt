-- ===== src/Watch/Backoff/Bounds.antt =====
-- The delay against the formula of docs/backoff.md, Uniform(0, min(max, base * 2^(attempt-1))).
use otcat.Base.{ℕ, zero, suc, ◌+◌, ◌-◌, ◌*◌, ◌%◌, ◌^◌, ◌≤◌, ◌<◌, ◌≡◌, some, arith, min}
use otcat.Watch.Backoff.{backoff_exponent, saturate, backoff_upper, full_jitter_backoff}
use native.Mathlib.Nat.{pow-suc}
use native.Mathlib.Decide.{ℕ_discrete}

pow-pos : (n : ℕ) → 1 ≤ 2 ^ n
pow-pos zero = omega arith
pow-pos (suc n) = omega (arith, pow-suc 2 n, pow-pos n)

pow_mono : (m n : ℕ) → m ≤ n → 2 ^ m ≤ 2 ^ n
pow_mono m zero h = let e : m ≡ 0 = omega arith in rw e (omega arith)
pow_mono m (suc n) h = elim (ℕ_discrete m (suc n)) [
  | yes e ↦ rw e (omega arith)
  | no ne ↦ omega (arith, pow-suc 2 n, pow_mono m n (omega arith))
]

exponent-le : (attempt : ℕ) → backoff_exponent attempt ≤ 20
unfolding backoff_exponent
exponent-le attempt = ground arith

exponent_below : (attempt : ℕ) → 1 ≤ attempt → backoff_exponent attempt ≤ attempt - 1
unfolding backoff_exponent
exponent_below attempt h = ground arith

saturate-min : (p max : ℕ) → 1 ≤ p → p < 2 ^ 63 → saturate (p % 2 ^ 64) max ≡ min max p
unfolding saturate
saturate-min p max lo hi = ground arith

saturate_bounds :
    (p max : ℕ)
    → 1 ≤ p
    → max < 2 ^ 63
    → (saturate (p % 2 ^ 64) max ≤ max) × (saturate (p % 2 ^ 64) max ≤ p)
unfolding saturate
saturate_bounds p max lo hi = ground arith

-- If the interval times 2^20 is below 2^63: the delay's ceiling is the smaller of the maximum and the
-- interval times 2 to the exponent, which is held at 20.
pub backoff_upper-min :
    (base max attempt : ℕ)
    → 1 ≤ base
    → base * 2 ^ 20 < 2 ^ 63
    → backoff_upper base max attempt ≡ min max (base * 2 ^ backoff_exponent attempt)
unfolding backoff_upper
backoff_upper-min base max attempt lo hi =
    saturate-min (base * 2 ^ backoff_exponent attempt) max
      (grind (arith, lo, pow-pos (backoff_exponent attempt)))
      (grind (arith, pow_mono (backoff_exponent attempt) 20 (exponent-le attempt)))

upper_bounds :
    (base max attempt : ℕ)
    → 1 ≤ base
    → max < 2 ^ 63
    → (backoff_upper base max attempt ≤ max)
      × (backoff_upper base max attempt ≤ base * 2 ^ backoff_exponent attempt)
unfolding backoff_upper
upper_bounds base max attempt lo hi =
    saturate_bounds (base * 2 ^ backoff_exponent attempt) max
      (grind (arith, lo, pow-pos (backoff_exponent attempt))) hi

-- For an interval of at least 1, a maximum below 2^63 - 1 and an attempt of at least 1: the delay is
-- at most the maximum and at most the interval times 2^(attempt - 1), and the generator does not
-- panic.
pub full_jitter_backoff_bounds :
    (draw base max attempt : ℕ)
    → 1 ≤ base
    → max < 2 ^ 63 - 1
    → 1 ≤ attempt
    → (delay : ℕ) × (full_jitter_backoff draw base max attempt ≡ some delay)
      × (delay ≤ max)
      × (delay ≤ base * 2 ^ (attempt - 1))
unfolding full_jitter_backoff
full_jitter_backoff_bounds draw base max attempt lo h ha =
    (delay, ground (arith, bounds), omega (arith, bounds), omega (arith, bounds, product))
  where
    upper : ℕ
    upper = backoff_upper base max attempt

    delay : ℕ
    delay = draw % (upper + 1)

    bounds : (upper ≤ max) × (upper ≤ base * 2 ^ backoff_exponent attempt)
    bounds = upper_bounds base max attempt lo (omega arith)

    product : base * 2 ^ backoff_exponent attempt ≤ base * 2 ^ (attempt - 1)
    product =
        grind (arith, pow_mono (backoff_exponent attempt) (attempt - 1) (exponent_below attempt ha))
