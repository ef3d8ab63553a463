-- ===== src/Runs/Polls.antt =====
-- internal/watch at concrete inputs.
use otcat.Base.{take, ℕ, ◌-◌, ◌*◌, ◌^◌, ◌<◌, ◌≡◌, refl, List, [], ◌∷◌, none, arith, min, refl}
use otcat.Base.Int.{pos}
use otcat.Errors.{ok, err, not_connected}
use otcat.Watch.Backoff.{backoff_exponent, backoff_upper}
use otcat.Watch.Backoff.Bounds.{backoff_upper-min}
use otcat.Watch.Poller.{returned, Poll, Options, Round, max_backoff_of, run}
use otcat.Watch.Poller.Limit.{good_reads, run_limit}
use otcat.Watch.Poller.Counting.{Ends, run-Ends}
use otcat.Watch.Poller.Delays.{Keeps, run-Keeps}

backoff_upper-min_example : backoff_upper 1000 60000 4 ≡ min 60000 (1000 * 2 ^ backoff_exponent 4)
backoff_upper-min_example = backoff_upper-min 1000 60000 4 (omega arith) (omega arith)

abbrev one_value : Options
one_value = record { interval = pos 1000; max_backoff = pos 60000; count = 1 }

-- A failed read, and a successful one.
abbrev rounds : List (Round ℕ)
rounds =
    record {
      ctx_err = none;
      read = err not_connected;
      draw = 77;
      emit_err = none;
      sleep_err = none;
    }
    ∷ record { ctx_err = none; read = ok 42; draw = 0; emit_err = none; sleep_err = none }
    ∷ []

run-Ends_example : Ends one_value (run one_value rounds)
run-Ends_example = run-Ends one_value rounds

one_value_small : max_backoff_of one_value < 2 ^ 63 - 1
unfolding max_backoff_of
one_value_small = ground arith

run-Keeps_example : Keeps one_value (run one_value rounds)
run-Keeps_example = run-Keeps one_value rounds one_value_small

run_limit_example :
    (t : Poll ℕ) × (run one_value rounds ≡ returned none t)
    × (t.values ≡ take 1 (good_reads rounds))
unfolding good_reads
run_limit_example =
    run_limit one_value rounds one_value_small ((refl, refl, refl), ((refl, refl, refl), tt))
      (omega arith) (omega arith)
