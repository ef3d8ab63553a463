-- ===== src/Watch/Backoff.antt =====
-- `fullJitterBackoff` of internal/watch/poller.go. A `time.Duration` is an int64 of nanoseconds; `Run`
-- calls the function with positive ones, and the shifted product is kept as its 64-bit pattern.
pub mod Bounds
use otcat.Base.{
  ℕ, suc, ◌+◌, ◌-◌, ◌*◌, ◌%◌, ◌^◌, ◌||◌, Option, some, none, ltb, leb, ◌==◌, if◌then◌else◌,
}

abbrev pub exp_ceiling : ℕ
exp_ceiling = 20

-- The exponent: `attempt` is at least 1, and the exponent at most `expCeiling`.
unfoldable pub backoff_exponent : ℕ → ℕ
backoff_exponent attempt =
    let attempt' = if ltb attempt 1 then 1 else attempt in
    if ltb exp_ceiling (attempt' - 1) then exp_ceiling else attempt' - 1

-- `upper`, after the saturation. A pattern of 0 or from 2^63 on is an int64 that is not positive.
saturate : ℕ → ℕ → ℕ
saturate upper max = if upper == 0 || leb (2 ^ 63) upper || ltb max upper then max else upper

unfoldable pub backoff_upper : ℕ → ℕ → ℕ → ℕ
unfolding saturate
backoff_upper base max attempt = saturate (base * 2 ^ backoff_exponent attempt % 2 ^ 64) max

-- `rng.Int63n(n)` is `draw % n` for a number `draw` that the generator makes. It panics, `none`, where
-- `upper + 1` is past the int64 range.
unfoldable pub full_jitter_backoff : ℕ → ℕ → ℕ → ℕ → Option ℕ
full_jitter_backoff draw base max attempt =
    let upper = backoff_upper base max attempt in
    if upper == 0
    then some 0
    else if leb (2 ^ 63) (upper + 1)
    then none
    else some (draw % (upper + 1))
