-- ===== src/Watch/Poller/Limit.antt =====
-- With a limit, `Run` of internal/watch/poller.go returns nil once it has emitted that many values.
use otcat.Base.{
  ℕ, suc, ◌+◌, ◌-◌, ◌≤◌, ◌<◌, ◌^◌, ◌≡◌, refl, ◌∙◌, ap, sym, none, List, [], ◌∷◌, ◌++◌, arith, leb,
  length, take, All, append_assoc, Bool-cases, leb→le, inl, inr,
}
use mathlib.Core.Path.{ap₂}
use otcat.Errors.{Error, Result, ok, err}
use otcat.Watch.Backoff.Bounds.{full_jitter_backoff_bounds}
use otcat.Watch.Poller.Delays.{interval-pos}
use otcat.Watch.Poller.{
  Options, Round, Poll, Status, running, returned, panicked, start, sleep, on_failure, on_success,
  poll_round, run_from, run, interval_of, max_backoff_of,
}

module _ {V : Type 0} where
  -- A round in which nothing but the read may fail.
  abbrev pub IsQuiet : Round V → Type 0
  IsQuiet r = (r.ctx_err ≡ none) × (r.emit_err ≡ none) × (r.sleep_err ≡ none)

  -- The values that the rounds' reads return, in order.
  unfoldable pub good_reads : List (Round V) → List V
  good_reads [] = []
  good_reads (r ∷ rs) = let rest = good_reads rs in elim r.read [ err e ↦ rest | ok v ↦ v ∷ rest ]

  failed_round :
      (opt : Options) (r : Round V) (s : Poll V) (e : Error)
      → IsQuiet r
      → r.read ≡ err e
      → max_backoff_of opt < 2 ^ 63 - 1
      → (t : Poll V) × (poll_round opt r s ≡ running t)
        × (t.emitted ≡ s.emitted)
        × (t.values ≡ s.values)
  unfolding poll_round on_failure sleep
  failed_round opt r s e q h small =
      let (d, found, _, _) =
        full_jitter_backoff_bounds r.draw (interval_of opt) (max_backoff_of opt) (s.attempt + 1)
          (interval-pos opt) small (omega arith) in
      (
        record s {
          attempt = s.attempt + 1;
          reported = s.reported ++ (e ∷ []);
          sleeps = s.sleeps ++ (d ∷ []);
        },
        ground (arith, q.0, q.2, h, found),
        refl,
        refl,
      )

  -- The loop's variables once a value is given to the output.
  abbrev with_value : V → Poll V → Poll V
  with_value v s = record s { attempt = 0; emitted = s.emitted + 1; values = s.values ++ (v ∷ []) }

  last_round :
      (opt : Options) (r : Round V) (s : Poll V) (v : V)
      → IsQuiet r
      → r.read ≡ ok v
      → 1 ≤ opt.count
      → opt.count ≤ s.emitted + 1
      → poll_round opt r s ≡ returned none (with_value v s)
  unfolding poll_round on_success
  last_round opt r s v q h one reached = ground (arith, q.0, q.1, h, one, reached)

  good_round :
      (opt : Options) (r : Round V) (s : Poll V) (v : V)
      → IsQuiet r
      → r.read ≡ ok v
      → s.emitted + 1 < opt.count
      → poll_round opt r s
        ≡ running (record (with_value v s) { sleeps = s.sleeps ++ (interval_of opt ∷ []) })
  unfolding poll_round on_success sleep
  good_round opt r s v q h below = ground (arith, q.0, q.1, q.2, h, below)

  run_step :
      (opt : Options) (r : Round V) (rs : List (Round V)) (s t : Poll V)
      → poll_round opt r s ≡ running t
      → run_from opt (r ∷ rs) s ≡ run_from opt rs t
  unfolding run_from
  run_step opt r rs s t e =
      ap
        (λ (st : Status V). elim st [
          | running t ↦ run_from opt rs t
          | returned e t ↦ returned e t
          | panicked t ↦ panicked t
        ])
        e

  run_stop :
      (opt : Options) (r : Round V) (rs : List (Round V)) (s t : Poll V)
      → poll_round opt r s ≡ returned none t
      → run_from opt (r ∷ rs) s ≡ returned none t
  unfolding run_from
  run_stop opt r rs s t e =
      ap
        (λ (st : Status V). elim st [
          | running t ↦ run_from opt rs t
          | returned e t ↦ returned e t
          | panicked t ↦ panicked t
        ])
        e

  -- The run from `s` returns nil, with what is missing up to the limit emitted from `vs`.
  abbrev Reaches : Options → List (Round V) → Poll V → List V → Type 0
  Reaches opt rs s vs =
      (t : Poll V) × (run_from opt rs s ≡ returned none t)
      × (t.values ≡ s.values ++ take (opt.count - s.emitted) vs)

  good_reads_err :
      (r : Round V) (rs : List (Round V)) (e : Error)
      → r.read ≡ err e
      → good_reads (r ∷ rs) ≡ good_reads rs
  unfolding good_reads
  good_reads_err r rs e h =
      ap (λ (x : Result V). elim x [ err e ↦ good_reads rs | ok v ↦ v ∷ good_reads rs ]) h

  good_reads_ok :
      (r : Round V) (rs : List (Round V)) (v : V)
      → r.read ≡ ok v
      → good_reads (r ∷ rs) ≡ v ∷ good_reads rs
  unfolding good_reads
  good_reads_ok r rs v h =
      ap (λ (x : Result V). elim x [ err e ↦ good_reads rs | ok v ↦ v ∷ good_reads rs ]) h

  take_one : (n : ℕ) (v : V) (vs : List V) → n ≡ 1 → take n (v ∷ vs) ≡ v ∷ []
  take_one n v vs h = rw h refl

  take_next : (n m : ℕ) (v : V) (vs : List V) → n ≡ suc m → take n (v ∷ vs) ≡ v ∷ take m vs
  take_next n m v vs h = rw h refl

  reaches :
      (opt : Options) (rs : List (Round V)) (s : Poll V)
      → max_backoff_of opt < 2 ^ 63 - 1
      → All IsQuiet rs
      → s.emitted < opt.count
      → opt.count ≤ s.emitted + length (good_reads rs)
      → Reaches opt rs s (good_reads rs)
  reaches opt [] s small q below enough = absurd (unfold good_reads in omega arith)
  reaches opt (r ∷ rs) s small q below enough = go r.read refl (λ t. reaches opt rs t small q.1)
    where
      go :
          (x : Result V)
          → r.read ≡ x
          → ((t : Poll V)
              → t.emitted < opt.count
              → opt.count ≤ t.emitted + length (good_reads rs)
              → Reaches opt rs t (good_reads rs))
          → Reaches opt (r ∷ rs) s (good_reads (r ∷ rs))
      go (err e) h more =
          let (t, round, same, kept) = failed_round opt r s e q.0 h small in
          let left : opt.count ≤ t.emitted + length (good_reads rs) =
            omega (arith, same, enough, ap length (good_reads_err r rs e h)) in
          let (u, ran, got) = more t (omega (arith, same)) left in
          (
            u,
            run_step opt r rs s t round ∙ ran,
            got
                ∙ ap₂ (λ xs n. xs ++ take (opt.count - n) (good_reads rs)) kept same
                ∙ ap (λ vs. s.values ++ take (opt.count - s.emitted) vs)
                    (sym (good_reads_err r rs e h)),
          )
      go (ok v) h more = elim (Bool-cases (leb opt.count (s.emitted + 1))) [
        | inl reached ↦ (
          with_value v s,
          run_stop opt r rs s (with_value v s)
              (last_round opt r s v q.0 h (omega arith) (leb→le opt.count (s.emitted + 1) reached)),
          ap (λ x. s.values ++ x)
              (sym (
                ap (take (opt.count - s.emitted)) (good_reads_ok r rs v h)
                ∙ take_one (opt.count - s.emitted) v (good_reads rs)
                    (let le = leb→le opt.count (s.emitted + 1) reached in omega arith))),
        )
        | inr early ↦
            let next : Poll V = record (with_value v s) {
              sleeps = s.sleeps ++ (interval_of opt ∷ []);
            } in
            let longer : length (good_reads (r ∷ rs)) ≡ suc (length (good_reads rs)) =
              ap length (good_reads_ok r rs v h) in
            let later : s.emitted + 1 < opt.count = ground (arith, early) in
            let (u, ran, got) = more next later (omega (arith, enough, longer)) in
            (
              u,
              run_step opt r rs s next (good_round opt r s v q.0 h later) ∙ ran,
              got
                  ∙ append_assoc s.values (v ∷ [])
                      (take (opt.count - (s.emitted + 1)) (good_reads rs))
                  ∙ ap (λ x. s.values ++ x)
                      (sym (
                        ap (take (opt.count - s.emitted)) (good_reads_ok r rs v h)
                        ∙ take_next (opt.count - s.emitted) (opt.count - (s.emitted + 1)) v
                            (good_reads rs) (omega arith))),
            )
      ]

  -- With a limit and a maximum backoff below 2^63 - 1: if nothing but reads fails and the limit is no
  -- more than the number of reads that succeed, `Run` returns nil, and has emitted the first values read,
  -- as many as the limit says.
  pub run_limit :
      (opt : Options) (rs : List (Round V))
      → max_backoff_of opt < 2 ^ 63 - 1
      → All IsQuiet rs
      → 1 ≤ opt.count
      → opt.count ≤ length (good_reads rs)
      → (t : Poll V) × (run opt rs ≡ returned none t) × (t.values ≡ take opt.count (good_reads rs))
  unfolding run start
  run_limit opt rs small q one enough =
      let (t, e, v) = reaches opt rs start small q (omega arith) (omega arith) in
      let whole : opt.count - 0 ≡ opt.count = omega arith in
      (t, e, v ∙ ap (λ n. take n (good_reads rs)) whole)
