-- ===== src/Probe/Percentiles.antt =====
-- The report of cmd/otcat-latencyprobe/main.go on its samples.
use otcat.Base.{
  map, ℕ, ◌-◌, ◌≤◌, ◌<◌, ◌≡◌, refl, ◌∙◌, some, List, [], ◌∷◌, leb, length, All, arith,
  if◌then◌else◌,
}
use otcat.Mock.Process.{Float64}
use otcat.Probe.{index, sort_samples, mean, stddev, percentile, Report, reported, report}
use otcat.Probe.Sorting.{
  IsAscending, length-sort_samples, sort_samples-All, sort_samples-IsAscending, index_lt,
  index_mono, first_bound, last_bound,
}

-- The index that a percentile reads.
abbrev place : ℕ → ℕ → ℕ
place r n = if leb n (r - 1) then n - 1 else r - 1

percentile-place :
    (rank_of : ℕ → ℕ) (x : ℕ) (xs : List ℕ)
    → percentile rank_of (x ∷ xs)
      ≡ index (x ∷ xs) (place (rank_of (length (x ∷ xs))) (length (x ∷ xs)))
unfolding percentile
percentile-place rank_of x xs = ground arith

place_lt : (r n : ℕ) → 0 < n → place r n < n
place_lt r n h = ground arith

place_mono : (r s n : ℕ) → r ≤ s → 0 < n → place r n ≤ place s n
place_mono r s n h k = ground arith

-- A percentile of samples, one at least, is one of them.
percentile-some :
    (rank_of : ℕ → ℕ) (xs : List ℕ)
    → 0 < length xs
    → (v : ℕ) × (percentile rank_of xs ≡ some v)
      × (index xs (place (rank_of (length xs)) (length xs)) ≡ some v)
percentile-some rank_of [] h = absurd (omega arith)
percentile-some rank_of (x ∷ xs) h =
    let (v, e) =
      index_lt (x ∷ xs) (place (rank_of (length (x ∷ xs))) (length (x ∷ xs)))
        (place_lt (rank_of (length (x ∷ xs))) (length (x ∷ xs)) h) in
    (v, percentile-place rank_of x xs ∙ e, e)

module _ (f : Float64) (rank : ℕ → ℕ → ℕ)
    (rank_mono : (p q n : ℕ) → p ≤ q → rank p n ≤ rank q n) where
  -- The figures of a report on samples are in order, and bound the samples.
  pub record IsReportOn (samples : List ℕ) (r : Report f) : Type 0 where
    pub count : r.samples ≡ length samples
    pub min-p50 : r.min_us ≤ r.p50_us
    pub p50-p90 : r.p50_us ≤ r.p90_us
    pub p90-p99 : r.p90_us ≤ r.p99_us
    pub p99-p999 : r.p99_us ≤ r.p999_us
    pub p999-max : r.p999_us ≤ r.max_us
    pub least : All (λ y. r.min_us ≤ y) samples
    pub greatest : All (λ y. y ≤ r.max_us) samples

  report_sorted :
      (quantity : ℕ) (wall : f.F) (xs : List ℕ)
      → 0 < length xs
      → IsAscending xs
      → (r : Report f) × (report f rank quantity wall xs ≡ reported r) × IsReportOn xs r
  unfolding report
  report_sorted quantity wall xs h up =
      let n = length xs in
      let (a, ea) = index_lt xs 0 h in
      let (p, ep, ip) = percentile-some (rank 500) xs h in
      let (q, eq, iq) = percentile-some (rank 900) xs h in
      let (r, er, ir) = percentile-some (rank 990) xs h in
      let (s, es, is) = percentile-some (rank 999) xs h in
      let (z, ez) = index_lt xs (length xs - 1) (omega arith) in
      let found : Report f = record {
        samples = n;
        quantity = quantity;
        min_us = a;
        p50_us = p;
        p90_us = q;
        p99_us = r;
        p999_us = s;
        max_us = z;
        mean_us = mean f (map (λ s. f.lit s 0) xs);
        std_dev_us = stddev f (map (λ s. f.lit s 0) xs);
        throughput_per_sec = f.div (f.lit n 0) wall;
      } in
      (
        found,
        rw (ea, ep, eq, er, es, ez) refl,
        record {
          count = refl;
          min-p50 = index_mono xs 0 (place (rank 500 n) n) a p up (omega arith) ea ip;
          p50-p90 =
              index_mono xs (place (rank 500 n) n) (place (rank 900 n) n) p q up
                (place_mono (rank 500 n) (rank 900 n) n (rank_mono 500 900 n (omega arith)) h) ip
                iq;
          p90-p99 =
              index_mono xs (place (rank 900 n) n) (place (rank 990 n) n) q r up
                (place_mono (rank 900 n) (rank 990 n) n (rank_mono 900 990 n (omega arith)) h) iq
                ir;
          p99-p999 =
              index_mono xs (place (rank 990 n) n) (place (rank 999 n) n) r s up
                (place_mono (rank 990 n) (rank 999 n) n (rank_mono 990 999 n (omega arith)) h) ir
                is;
          p999-max =
              index_mono xs (place (rank 999 n) n) (n - 1) s z up
                (let l = place_lt (rank 999 n) n h in omega (arith, l)) is ez;
          least = first_bound xs a up ea;
          greatest = last_bound xs z up ez;
        },
      )

  -- Where a higher percentile has no lower rank: the report on samples, one at least, is given; its
  -- figures rise from the minimum over the four percentiles to the maximum, and every sample lies between
  -- minimum and maximum.
  pub report-IsReportOn :
      (quantity : ℕ) (wall : f.F) (samples : List ℕ)
      → 0 < length samples
      → (r : Report f) × (report f rank quantity wall (sort_samples samples) ≡ reported r)
        × IsReportOn samples r
  report-IsReportOn quantity wall samples h =
      let (r, e, v) =
        report_sorted quantity wall (sort_samples samples) (rw (length-sort_samples samples) h)
          (sort_samples-IsAscending samples) in
      (
        r,
        e,
        record {
          count = v.count ∙ length-sort_samples samples;
          min-p50 = v.min-p50;
          p50-p90 = v.p50-p90;
          p90-p99 = v.p90-p99;
          p99-p999 = v.p99-p999;
          p999-max = v.p999-max;
          least = sort_samples-All (λ y. r.min_us ≤ y) samples v.least;
          greatest = sort_samples-All (λ y. y ≤ r.max_us) samples v.greatest;
        },
      )
