-- ===== src/Watch/Poller/Counting.antt =====
-- `Run` of internal/watch/poller.go: what it has emitted when it stops.
use otcat.Base.{
  ℕ, ◌+◌, ◌≤◌, ◌<◌, ◌≡◌, refl, inl, inr, Option, some, none, List, [], ◌∷◌, ◌++◌, arith, ltb, leb,
  ◌&&◌, if◌then◌else◌, length, length-append, Bool-cases,
}
use otcat.Errors.{Error, Result, ok, err}
use otcat.Watch.Backoff.{full_jitter_backoff}
use otcat.Watch.Poller.{
  Options, Round, Poll, Status, running, returned, panicked, start, sleep, on_failure, on_success,
  poll_round, run_from, run, interval_of, max_backoff_of,
}

module _ {V : Type 0} where
  -- The counter is the number of values emitted, and with a limit the loop is below it.
  pub record IsCounted (opt : Options) (s : Poll V) : Type 0 where
    pub counted : s.emitted ≡ length s.values
    pub below : 1 ≤ opt.count → s.emitted < opt.count

  -- How a run may stand: going on below its limit, or stopped at or below it; it returns nil exactly
  -- at a limit that it has reached.
  abbrev pub Ends : Options → Status V → Type 0
  Ends opt (running s) = IsCounted opt s
  Ends opt (returned none s) = (1 ≤ opt.count) × (length s.values ≡ opt.count)
  Ends opt (returned (some e) s) =
      (s.emitted ≡ length s.values) × (1 ≤ opt.count → length s.values < opt.count)
  Ends opt (panicked s) =
      (s.emitted ≡ length s.values) × (1 ≤ opt.count → length s.values < opt.count)

  sleep-Ends :
      (opt : Options) (d : ℕ) (o : Option Error) (s : Poll V)
      → IsCounted opt s
      → Ends opt (sleep d o s)
  unfolding sleep
  sleep-Ends opt d none s inv = record { counted = inv.counted; below = inv.below }
  sleep-Ends opt d (some e) s inv = (inv.counted, λ h. omega (arith, inv.below h, inv.counted))

  on_failure-Ends :
      (opt : Options) (e : Error) (r : Round V) (s : Poll V)
      → IsCounted opt s
      → Ends opt (on_failure opt e r s)
  unfolding on_failure
  on_failure-Ends opt e r s inv =
      after (full_jitter_backoff r.draw (interval_of opt) (max_backoff_of opt) (s.attempt + 1))
    where
      t : Poll V
      t = record s { attempt = s.attempt + 1; reported = s.reported ++ (e ∷ []) }

      after :
          (o : Option ℕ) → Ends opt (elim o [ none ↦ panicked t | some d ↦ sleep d r.sleep_err t ])
      after none = (inv.counted, λ h. omega (arith, inv.below h, inv.counted))
      after (some d) =
          sleep-Ends opt d r.sleep_err t (record { counted = inv.counted; below = inv.below })

  on_success-Ends :
      (opt : Options) (v : V) (r : Round V) (s : Poll V)
      → IsCounted opt s
      → Ends opt (on_success opt v r s)
  unfolding on_success
  on_success-Ends opt v r s inv = after r.emit_err
    where
      t : Poll V
      t = record s { attempt = 0; emitted = s.emitted + 1; values = s.values ++ (v ∷ []) }

      grown : t.emitted ≡ length t.values
      grown = omega (arith, length-append s.values (v ∷ []), inv.counted)

      limit : Status V
      limit =
          if ltb 0 opt.count && leb opt.count t.emitted
          then returned none t
          else sleep (interval_of opt) r.sleep_err t

      at_limit : Ends opt limit
      at_limit = elim (Bool-cases (ltb 0 opt.count && leb opt.count t.emitted)) [
        | inl stop ↦ rw stop (ground arith, ground (arith, grown, inv.below))
        | inr more ↦ rw more (
            sleep-Ends opt (interval_of opt) r.sleep_err t
              (record { counted = grown; below = λ h. ground arith }))
      ]

      after :
          (o : Option Error)
          → Ends opt
              (elim o [ some e ↦ returned (some e) (record s { attempt = 0 }) | none ↦ limit ])
      after none = at_limit
      after (some e) = (inv.counted, λ h. omega (arith, inv.below h, inv.counted))

  poll_round-Ends :
      (opt : Options) (r : Round V) (s : Poll V) → IsCounted opt s → Ends opt (poll_round opt r s)
  unfolding poll_round
  poll_round-Ends opt r s inv = top r.ctx_err
    where
      body :
          (x : Result V)
          → Ends opt (elim x [ err e ↦ on_failure opt e r s | ok v ↦ on_success opt v r s ])
      body (err e) = on_failure-Ends opt e r s inv
      body (ok v) = on_success-Ends opt v r s inv

      top :
          (o : Option Error)
          → Ends opt (elim o [
            | some e ↦ returned (some e) s
            | none ↦ elim r.read [ err e ↦ on_failure opt e r s | ok v ↦ on_success opt v r s ]
          ])
      top none = body r.read
      top (some e) = (inv.counted, λ h. omega (arith, inv.below h, inv.counted))

  run_from-Ends :
      (opt : Options) (rs : List (Round V)) (s : Poll V)
      → IsCounted opt s
      → Ends opt (run_from opt rs s)
  unfolding run_from
  run_from-Ends opt [] s inv = inv
  run_from-Ends opt (r ∷ rs) s inv =
      onward (poll_round opt r s) (poll_round-Ends opt r s inv) (λ t. run_from-Ends opt rs t)
    where
      onward :
          (x : Status V)
          → Ends opt x
          → ((t : Poll V) → IsCounted opt t → Ends opt (run_from opt rs t))
          → Ends opt (elim x [
            | running t ↦ run_from opt rs t
            | returned e t ↦ returned e t
            | panicked t ↦ panicked t
          ])
      onward (running t) h rest = rest t h
      onward (returned e t) h rest = h
      onward (panicked t) h rest = h

  -- Over any answers of its environment: while the loop runs, and when it returns an error, it has
  -- emitted fewer values than a limit allows, also if it panics; it returns nil only with a limit, and then it has emitted
  -- exactly as many.
  pub run-Ends : (opt : Options) (rs : List (Round V)) → Ends opt (run opt rs)
  unfolding run start
  run-Ends opt rs = run_from-Ends opt rs start (record { counted = refl; below = λ h. h })
