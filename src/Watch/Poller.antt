-- ===== src/Watch/Poller.antt =====
-- `Run` of internal/watch/poller.go as steps over what its environment does: what the context, the
-- reader, the output, the timers and the random generator return in each round of its loop.
pub mod Counting
pub mod Delays
pub mod Limit
use otcat.Base.{
  ℕ, suc, ◌+◌, ◌-◌, Bool, true, false, Option, some, none, List, [], ◌∷◌, ◌++◌, ltb, leb, ◌==◌,
  ◌&&◌, if◌then◌else◌,
}
use otcat.Base.Int.{ℤ, pos, negsuc}
use otcat.Errors.{Error, Result, ok, err}
use otcat.Watch.Backoff.{full_jitter_backoff}

pub record Options : Type 0 where
  pub interval : ℤ  -- nanoseconds
  pub max_backoff : ℤ
  pub count : ℕ  -- int, never negative; 0 = no limit

-- `if d <= 0 { d = otherwise }`
positive_or : ℤ → ℕ → ℕ
positive_or (pos n) otherwise = if n == 0 then otherwise else n
positive_or (negsuc n) otherwise = otherwise

unfoldable pub interval_of : Options → ℕ
unfolding positive_or
interval_of opt = positive_or opt.interval 1_000_000_000

unfoldable pub max_backoff_of : Options → ℕ
unfolding positive_or
max_backoff_of opt = positive_or opt.max_backoff 30_000_000_000

-- One round's answers: the context's error at the top, the read, the generator's number, the
-- output's error, and the context's error if it ends the sleep.
pub record Round (V : Type 0) : Type 0 where
  pub ctx_err : Option Error
  pub read : Result V
  pub draw : ℕ
  pub emit_err : Option Error
  pub sleep_err : Option Error

-- The loop's variables, with what it has done: values given to the output and errors reported, each
-- in order, and the sleeps that it asked for.
pub record Poll (V : Type 0) : Type 0 where
  pub attempt : ℕ
  pub emitted : ℕ
  pub values : List V
  pub reported : List Error
  pub sleeps : List ℕ

-- After a round the loop goes on, or `Run` has returned: `none` is nil. A panic of `Int63n` ends it.
pub data Status (V : Type 0) : Type 0 where
  running : Poll V → Status V
  returned : Option Error → Poll V → Status V
  panicked : Poll V → Status V

module _ {V : Type 0} where
  unfoldable pub start : Poll V
  start = record { attempt = 0; emitted = 0; values = []; reported = []; sleeps = [] }

  -- `if !sleep(ctx, d) { return ctx.Err() }`
  unfoldable pub sleep : ℕ → Option Error → Poll V → Status V
  sleep d none s = running (record s { sleeps = s.sleeps ++ (d ∷ []) })
  sleep d (some e) s = returned (some e) (record s { sleeps = s.sleeps ++ (d ∷ []) })

  unfoldable pub on_failure : Options → Error → Round V → Poll V → Status V
  unfolding sleep
  on_failure opt e r s =
      let t = record s { attempt = s.attempt + 1; reported = s.reported ++ (e ∷ []) } in
      elim (full_jitter_backoff r.draw (interval_of opt) (max_backoff_of opt) t.attempt) [
        | none ↦ panicked t
        | some d ↦ sleep d r.sleep_err t
      ]

  unfoldable pub on_success : Options → V → Round V → Poll V → Status V
  unfolding sleep
  on_success opt v r s = elim r.emit_err [
    | some e ↦ returned (some e) (record s { attempt = 0 })
    | none ↦
        let t = record s { attempt = 0; emitted = s.emitted + 1; values = s.values ++ (v ∷ []) } in
        if ltb 0 opt.count && leb opt.count t.emitted
        then returned none t
        else sleep (interval_of opt) r.sleep_err t
  ]

  unfoldable pub poll_round : Options → Round V → Poll V → Status V
  unfolding on_failure on_success
  poll_round opt r s = elim r.ctx_err [
    | some e ↦ returned (some e) s
    | none ↦ elim r.read [ err e ↦ on_failure opt e r s | ok v ↦ on_success opt v r s ]
  ]

  -- The loop over the rounds that the environment plays; `running` if they are used up.
  unfoldable pub run_from : Options → List (Round V) → Poll V → Status V
  run_from opt [] s = running s
  run_from opt (r ∷ rs) s = elim (poll_round opt r s) [
    | running t ↦ run_from opt rs t
    | returned e t ↦ returned e t
    | panicked t ↦ panicked t
  ]

  unfoldable pub run : Options → List (Round V) → Status V
  unfolding run_from
  run opt rs = run_from opt rs start

  abbrev pub poll_of : Status V → Poll V
  poll_of (running s) = s
  poll_of (returned e s) = s
  poll_of (panicked s) = s
