-- ===== src/Probe.antt =====
-- cmd/otcat-latencyprobe/main.go over a transport: the warm-up, the timed reads and the report. A sample
-- is a whole number of microseconds, which a float64 holds exactly; the parameter `rank` is
-- `int(math.Ceil(p * float64(n)))`, with p in thousandths. What is printed, and where, is left out.
pub mod Sorting
pub mod Percentiles
pub mod Reported
use otcat.Base.{
  ℕ, zero, suc, ◌+◌, ◌-◌, Bool, true, false, Option, some, none, List, [], ◌∷◌, map, ltb, leb, ◌==◌,
  if◌then◌else◌, length,
}
use otcat.Base.Int.{ℤ, pos, negsuc}
use otcat.Errors.{Error, Result, ok, err, IoResult}
use otcat.Modbus.Transport.{Transport}
use otcat.Modbus.Client.{Client, M, connect, read_holding_registers}
use otcat.Mock.Process.{Float64}

-- `xs[i]`; `none` is the panic out of range.
unfoldable pub index {ℓ} : {A : Type ℓ} → List A → ℕ → Option A
index [] i = none
index (x ∷ xs) zero = some x
index (x ∷ xs) (suc i) = index xs i

-- `sort.Float64s`: an ascending list of the same samples, of which there is one.
unfoldable pub insert : ℕ → List ℕ → List ℕ
insert x [] = x ∷ []
insert x (y ∷ ys) = let rest = insert x ys in if leb x y then x ∷ y ∷ ys else y ∷ rest

unfoldable pub sort_samples : List ℕ → List ℕ
sort_samples [] = []
sort_samples (x ∷ xs) = insert x (sort_samples xs)

-- Where the rank is 0 the index is -1 in the code and 0 here, where the code puts it next.
unfoldable pub percentile : (ℕ → ℕ) → List ℕ → Option ℕ
percentile rank_of sorted =
    if length sorted == 0
    then some 0
    else let idx = rank_of (length sorted) - 1 in
      let idx = if leb (length sorted) idx then length sorted - 1 else idx in index sorted idx

module _ (f : Float64) where
  open f use {F, lit, add, sub, mul, div, sqrt}

  unfoldable pub sum : List F → F → F
  sum [] total = total
  sum (x ∷ xs) total = sum xs (add total x)

  unfoldable pub mean : List F → F
  mean xs = div (sum xs (lit 0 0)) (lit (length xs) 0)

  unfoldable pub stddev : List F → F
  stddev xs =
      let m = mean xs in
      sqrt (div (sum (map (λ x. mul (sub x m) (sub x m)) xs) (lit 0 0)) (lit (length xs) 0))

  -- `result`
  pub record Report : Type 0 where
    pub samples : ℕ
    pub quantity : ℕ
    pub min_us : ℕ
    pub p50_us : ℕ
    pub p90_us : ℕ
    pub p99_us : ℕ
    pub p999_us : ℕ
    pub max_us : ℕ
    pub mean_us : F
    pub std_dev_us : F
    pub throughput_per_sec : F

  pub data Outcome : Type 0 where
    exited : ℕ → Outcome
    panicked : Outcome
    reported : Report → Outcome

  abbrev pub or_panic : {A : Type 0} → Option A → (A → Outcome) → Outcome
  or_panic none k = panicked
  or_panic (some a) k = k a

  -- The report on sorted samples; the wall time is in seconds.
  unfoldable pub report : (ℕ → ℕ → ℕ) → ℕ → F → List ℕ → Outcome
  report rank quantity wall sorted = or_panic (index sorted 0) λ least.
      or_panic (percentile (rank 500) sorted) λ p50. or_panic (percentile (rank 900) sorted) λ p90.
        or_panic (percentile (rank 990) sorted) λ p99.
          or_panic (percentile (rank 999) sorted) λ p999.
            or_panic (index sorted (length sorted - 1)) λ greatest. reported (record {
              samples = length sorted;
              quantity = quantity;
              min_us = least;
              p50_us = p50;
              p90_us = p90;
              p99_us = p99;
              p999_us = p999;
              max_us = greatest;
              mean_us = mean (map (λ s. lit s 0) sorted);
              std_dev_us = stddev (map (λ s. lit s 0) sorted);
              throughput_per_sec = div (lit (length sorted) 0) wall;
            })

module _ (t : Transport) where
  open t use {Conn}

  unfoldable pub warm_up : ℕ → ℕ → M Conn (Unit {0})
  warm_up zero quantity c = (ok tt, c)
  warm_up (suc n) quantity c =
      let (r, c') = read_holding_registers t 0 quantity c in
      elim r [ err e ↦ (err e, c') | ok words ↦ warm_up n quantity c' ]

  -- `micros i` is what the clock says of read `i`.
  unfoldable pub sample : (ℕ → ℕ) → ℕ → ℕ → ℕ → M Conn (List ℕ)
  sample micros i zero quantity c = (ok [], c)
  sample micros i (suc n) quantity c =
      let (r, c') = read_holding_registers t 0 quantity c in
      elim r [
        | err e ↦ (err e, c')
        | ok words ↦
            let (rest, c'') = sample micros (suc i) n quantity c' in
            (elim rest [ err e ↦ err e | ok samples ↦ ok (micros i ∷ samples) ], c'')
      ]

  -- `for i := 0; i < n; i++`
  abbrev pub rounds : ℤ → ℕ
  rounds (pos n) = n
  rounds (negsuc n) = 0

  module _ (f : Float64) (rank : ℕ → ℕ → ℕ) where
    -- `make` with a negative length panics.
    unfoldable pub measure : ℤ → ℕ → (ℕ → ℕ) → f.F → Client Conn → Outcome f
    measure (negsuc n) quantity micros wall c = panicked
    measure (pos n) quantity micros wall c = elim (sample micros 0 n quantity c).0 [
      | err e ↦ exited 1
      | ok samples ↦ report f rank quantity wall (sort_samples samples)
    ]

    -- `main` behind the choice of the target: `dialed` is what the dial returned.
    unfoldable pub probe : IoResult Conn → ℤ → ℕ → ℤ → (ℕ → ℕ) → f.F → Client Conn → Outcome f
    probe dialed n quantity warmup micros wall c =
        let (connected, c) = connect t dialed c in
        elim connected [
          | err e ↦ exited 1
          | ok done ↦
              let (warm, c) = warm_up (rounds warmup) quantity c in
              elim warm [ err e ↦ exited 1 | ok done ↦ measure n quantity micros wall c ]
        ]
