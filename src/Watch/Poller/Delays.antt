-- ===== src/Watch/Poller/Delays.antt =====
-- The sleeps that `Run` asks for against its two options, and the calls of its generator.
use otcat.Base.{
  ℕ, ◌+◌, ◌-◌, ◌^◌, ◌≤◌, ◌<◌, ◌≡◌, refl, ◌⊎◌, inl, inr, Bool, true, false, Option, some, none, List,
  [], ◌∷◌, ◌++◌, arith, ltb, leb, ◌&&◌, if◌then◌else◌, All,
}
use otcat.Base.Strings.Trim.{All-append}
use otcat.Errors.{Error, Result, ok, err}
use otcat.Watch.Backoff.{full_jitter_backoff}
use otcat.Watch.Backoff.Bounds.{full_jitter_backoff_bounds}
use otcat.Watch.Poller.{
  Options, Round, Poll, Status, running, returned, panicked, start, sleep, on_failure, on_success,
  poll_round, run_from, run, interval_of, max_backoff_of,
}

-- A sleep is within the interval, or within the maximum backoff.
abbrev pub IsPaced : Options → ℕ → Type 0
IsPaced opt d = (d ≤ interval_of opt) ⊎ (d ≤ max_backoff_of opt)

pub interval-pos : (opt : Options) → 1 ≤ interval_of opt
unfolding interval_of
interval-pos opt = ground arith

abbrev pub Keeps : {V : Type 0} → Options → Status V → Type 0
Keeps opt (running s) = All (IsPaced opt) s.sleeps
Keeps opt (returned e s) = All (IsPaced opt) s.sleeps
Keeps opt (panicked s) = ⊥

module _ {V : Type 0} (opt : Options) (small : max_backoff_of opt < 2 ^ 63 - 1) where
  sleep-Keeps :
      (d : ℕ) (o : Option Error) (s : Poll V)
      → IsPaced opt d
      → All (IsPaced opt) s.sleeps
      → Keeps opt (sleep d o s)
  unfolding sleep
  sleep-Keeps d none s hd h = All-append (IsPaced opt) s.sleeps (d ∷ []) h (hd, tt)
  sleep-Keeps d (some e) s hd h = All-append (IsPaced opt) s.sleeps (d ∷ []) h (hd, tt)

  on_failure-Keeps :
      (e : Error) (r : Round V) (s : Poll V)
      → All (IsPaced opt) s.sleeps
      → Keeps opt (on_failure opt e r s)
  unfolding on_failure
  on_failure-Keeps e r s h =
      after (full_jitter_backoff r.draw (interval_of opt) (max_backoff_of opt) (s.attempt + 1)) refl
    where
      t : Poll V
      t = record s { attempt = s.attempt + 1; reported = s.reported ++ (e ∷ []) }

      after :
          (o : Option ℕ)
          → full_jitter_backoff r.draw (interval_of opt) (max_backoff_of opt) (s.attempt + 1) ≡ o
          → Keeps opt (elim o [ none ↦ panicked t | some d ↦ sleep d r.sleep_err t ])
      after none e1 =
          let (d, same, _, _) =
            full_jitter_backoff_bounds r.draw (interval_of opt) (max_backoff_of opt) (s.attempt + 1)
              (interval-pos opt) small (omega arith) in
          cc (e1, same)
      after (some d) e1 =
          let (d', same, le, _) =
            full_jitter_backoff_bounds r.draw (interval_of opt) (max_backoff_of opt) (s.attempt + 1)
              (interval-pos opt) small (omega arith) in
          let e2 : d' ≡ d = cc (e1, same) in
          sleep-Keeps d r.sleep_err t (inr (omega (arith, le, e2))) h

  on_success-Keeps :
      (v : V) (r : Round V) (s : Poll V)
      → All (IsPaced opt) s.sleeps
      → Keeps opt (on_success opt v r s)
  unfolding on_success
  on_success-Keeps v r s h = after r.emit_err
    where
      t : Poll V
      t = record s { attempt = 0; emitted = s.emitted + 1; values = s.values ++ (v ∷ []) }

      limit :
          (b : Bool)
          → Keeps opt (if b then returned none t else sleep (interval_of opt) r.sleep_err t)
      limit true = h
      limit false = sleep-Keeps (interval_of opt) r.sleep_err t (inl (omega arith)) h

      after :
          (o : Option Error)
          → Keeps opt (elim o [
            | some e ↦ returned (some e) (record s { attempt = 0 })
            | none ↦
                if ltb 0 opt.count && leb opt.count t.emitted
                then returned none t
                else sleep (interval_of opt) r.sleep_err t
          ])
      after none = limit (ltb 0 opt.count && leb opt.count t.emitted)
      after (some e) = h

  poll_round-Keeps :
      (r : Round V) (s : Poll V) → All (IsPaced opt) s.sleeps → Keeps opt (poll_round opt r s)
  unfolding poll_round
  poll_round-Keeps r s h = top r.ctx_err
    where
      body :
          (x : Result V)
          → Keeps opt (elim x [ err e ↦ on_failure opt e r s | ok v ↦ on_success opt v r s ])
      body (err e) = on_failure-Keeps e r s h
      body (ok v) = on_success-Keeps v r s h

      top :
          (o : Option Error)
          → Keeps opt (elim o [
            | some e ↦ returned (some e) s
            | none ↦ elim r.read [ err e ↦ on_failure opt e r s | ok v ↦ on_success opt v r s ]
          ])
      top none = body r.read
      top (some e) = h

  run_from-Keeps :
      (rs : List (Round V)) (s : Poll V)
      → All (IsPaced opt) s.sleeps
      → Keeps opt (run_from opt rs s)
  unfolding run_from
  run_from-Keeps [] s h = h
  run_from-Keeps (r ∷ rs) s h =
      onward (poll_round opt r s) (poll_round-Keeps r s h) (λ t. run_from-Keeps rs t)
    where
      onward :
          (x : Status V)
          → Keeps opt x
          → ((t : Poll V) → All (IsPaced opt) t.sleeps → Keeps opt (run_from opt rs t))
          → Keeps opt (elim x [
            | running t ↦ run_from opt rs t
            | returned e t ↦ returned e t
            | panicked t ↦ panicked t
          ])
      onward (running t) k rest = rest t k
      onward (returned e t) k rest = k
      onward (panicked t) k rest = k

-- For a maximum backoff below 2^63 - 1, over any answers of its environment: the loop does not panic,
-- and every sleep is at most the interval or at most the maximum backoff.
pub run-Keeps :
    {V : Type 0} (opt : Options) (rs : List (Round V))
    → max_backoff_of opt < 2 ^ 63 - 1
    → Keeps opt (run opt rs)
unfolding run start
run-Keeps opt rs small = run_from-Keeps opt small rs start tt
