-- ===== src/Runs/Probes.antt =====
-- cmd/otcat-latencyprobe at concrete inputs.
use otcat.Base.{ℕ, ◌+◌, ◌*◌, ◌/◌, ◌≤◌, ◌≡◌, refl, List, [], ◌∷◌, some, arith, tabulate}
use otcat.Base.Int.{pos}
use otcat.Errors.{ok, done}
use otcat.Mock.Link.{link}
use otcat.Probe.{Report, reported, panicked, report, sort_samples, probe, warm_up}
use otcat.Probe.Percentiles.{IsReportOn, report-IsReportOn}
use otcat.Probe.Reported.{probe_reports, probe_panics}
use otcat.Runs.Wire.{peer, client, peer-IsIdle, holding-IsU16}
use otcat.Runs.Plants.{fixed}

-- The exact rank: the least whole number not below p * n / 1000.
abbrev rank : ℕ → ℕ → ℕ
rank p n = (p * n + 999) / 1000

rank_mono : (p q n : ℕ) → p ≤ q → rank p n ≤ rank q n
rank_mono p q n h = grind (arith, h)

abbrev samples : List ℕ
samples = 30 ∷ 10 ∷ 20 ∷ []

report-IsReportOn_example :
    (r : Report fixed) × (report fixed rank 10 1_000_000_000 (sort_samples samples) ≡ reported r)
    × IsReportOn fixed rank rank_mono samples r
report-IsReportOn_example =
    report-IsReportOn fixed rank rank_mono 10 1_000_000_000 samples (omega arith)

abbrev micros : ℕ → ℕ
micros i = 100 + i

probe_reports_example :
    (r : Report fixed) × (probe link fixed rank
        (done peer)
        (pos 5)
        10
        (pos 2)
        micros
        1_000_000_000
        client
      ≡ reported r)
    × IsReportOn fixed rank rank_mono (tabulate 5 0 micros) r
probe_reports_example =
    probe_reports fixed rank rank_mono peer 10 4 (pos 2) micros 1_000_000_000 client peer-IsIdle
      holding-IsU16 (omega arith) (omega arith)

no_warm_up : warm_up link 0 10 (record client { conn = some peer }) ≡ (ok tt, client)
unfolding warm_up
no_warm_up = refl

probe_panics_example :
    probe link fixed rank (done peer) (pos 0) 10 (pos 0) micros 1_000_000_000 client ≡ panicked
probe_panics_example =
    probe_panics link fixed rank peer (pos 0) 10 (pos 0) micros 1_000_000_000 client client refl
      no_warm_up
