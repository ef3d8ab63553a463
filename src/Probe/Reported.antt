-- ===== src/Probe/Reported.antt =====
-- cmd/otcat-latencyprobe/main.go against the mock server of internal/mock/server.go.
use otcat.Base.{ℕ, zero, suc, ◌+◌, ◌≤◌, ◌≡◌, refl, some, arith, tabulate}
use otcat.Base.Bytes.{IsU16}
use otcat.Base.Int.{ℤ, pos, negsuc}
use otcat.Errors.{ok, done}
use otcat.Modbus.Transport.{Transport}
use otcat.Modbus.Client.{Client, connect, read_holding_registers}
use otcat.Mock.Process.{Float64}
use otcat.Mock.Connection.{Peer}
use otcat.Mock.Link.{link}
use otcat.Mock.Link.Calls.{IsIdle, IsReady, tx_of}
use otcat.Mock.Link.Registers.{read_holding_registers_lem}
use otcat.Probe.{
  Report, panicked, reported, sort_samples, report, warm_up, sample, rounds, measure, probe, index,
}
use otcat.Probe.Percentiles.{IsReportOn, report-IsReportOn}

module _ (k : Peer) (quantity : ℕ) (words : (j : ℕ) → IsU16 (k.server.holding j))
    (lo : 1 ≤ quantity) (hi : quantity ≤ 125) where
  after_read : (c : Client Peer) → Client Peer
  after_read c = record c { tx_id = tx_of c }

  one_read :
      (c : Client Peer)
      → IsReady c k
      → (read_holding_registers link 0 quantity c
          ≡ (ok (tabulate quantity 0 (λ i. k.server.holding (0 + i))), after_read c))
        × IsReady (after_read c) k
  unfolding after_read
  one_read c r = (
    read_holding_registers_lem c k 0 quantity r words lo hi (omega arith),
    record { connection = r.connection; idle = r.idle },
  )

  warm_up-link :
      (n : ℕ) (c : Client Peer)
      → IsReady c k
      → (c' : Client Peer) × (warm_up link n quantity c ≡ (ok tt, c')) × IsReady c' k
  unfolding warm_up
  warm_up-link zero c r = (c, refl, r)
  warm_up-link (suc n) c r =
      let (read, r') = one_read c r in
      let (c', e, r'') = warm_up-link n (after_read c) r' in (c', ground (arith, read, e), r'')

  sample-link :
      (micros : ℕ → ℕ) (i n : ℕ) (c : Client Peer)
      → IsReady c k
      → (c' : Client Peer) × (sample link micros i n quantity c ≡ (ok (tabulate n i micros), c'))
  unfolding sample
  sample-link micros i zero c r = (c, refl)
  sample-link micros i (suc n) c r =
      let (read, r') = one_read c r in
      let (c', e) = sample-link micros (suc i) n (after_read c) r' in (c', ground (arith, read, e))

module _ (f : Float64) (rank : ℕ → ℕ → ℕ)
    (rank_mono : (p q n : ℕ) → p ≤ q → rank p n ≤ rank q n) where
  -- Against a mock server that keeps up, with 1 to 125 registers for each read and one read at least, the
  -- probe reports on as many samples as asked for, each what the clock said of its read.
  pub probe_reports :
      (k : Peer) (quantity : ℕ) (n : ℕ) (warmup : ℤ) (micros : ℕ → ℕ) (wall : f.F) (c : Client Peer)
      → IsIdle k
      → ((j : ℕ) → IsU16 (k.server.holding j))
      → 1 ≤ quantity
      → quantity ≤ 125
      → (r : Report f) × (probe link f rank (done k) (pos (suc n)) quantity warmup micros wall c
          ≡ reported r)
        × IsReportOn f rank rank_mono (tabulate (suc n) 0 micros) r
  unfolding probe measure connect
  probe_reports k quantity n warmup micros wall c idle words lo hi =
      let ready : IsReady (record c { conn = some k }) k = record {
        connection = refl;
        idle = idle;
      } in
      let (c', warm, r') =
        warm_up-link k quantity words lo hi (rounds link warmup) (record c { conn = some k })
          ready in
      let (c'', sampled) = sample-link k quantity words lo hi micros 0 (suc n) c' r' in
      let (r, e, v) =
        report-IsReportOn f rank rank_mono quantity wall (tabulate (suc n) 0 micros)
          (omega arith) in
      (r, ground (arith, warm, sampled, e), v)

module _ (t : Transport) (f : Float64) (rank : ℕ → ℕ → ℕ) where
  -- With -n 0 or a negative -n, and a warm-up that succeeds, the probe panics, whatever the device.
  pub probe_panics :
      (k : t.Conn) (n : ℤ) (quantity : ℕ) (warmup : ℤ) (micros : ℕ → ℕ) (wall : f.F)
      (c c' : Client t.Conn)
      → rounds t n ≡ 0
      → warm_up t (rounds t warmup) quantity (record c { conn = some k }) ≡ (ok tt, c')
      → probe t f rank (done k) n quantity warmup micros wall c ≡ panicked
  unfolding probe measure connect sample report sort_samples index
  probe_panics k (negsuc m) quantity warmup micros wall c c' z warm = ground (arith, warm)
  probe_panics k (pos zero) quantity warmup micros wall c c' z warm = ground (arith, warm)
  probe_panics k (pos (suc m)) quantity warmup micros wall c c' z warm = absurd (omega (arith, z))
