-- ===== src/Codec/Encoders/Failures.antt =====
-- What the encoders of internal/codec/codec.go do with a value that JSON cannot carry, and behind a write
-- error.
use otcat.Base.{
  Option-cases, inl, inr, ℕ, suc, ◌≡◌, Option, some, none, Text, List, [], ◌∷◌, ◌++◌, ◌∙◌, refl,
  sym, ap, subst, arith,
}
use otcat.Errors.{err, Result, Error, output_failed, ok}
use otcat.Protocol.{Value, scalar}
use otcat.Modbus.Convert.{Scalar}
use otcat.Watch.Poller.{Poll, Status, running, returned, panicked, start, poll_round, on_success}
use otcat.Cliapp.Config.{Config}
use otcat.Cliapp.Exit.{exit_io}
use otcat.Cliapp.Interfaces.{Device, Sink}
use otcat.Cliapp.Run.{Moment, play, watch_from, run_watch}
use otcat.Cliapp.Actions.{watch_exit, watch_options}
use otcat.Codec.Json.{json_scalar, json_payload, json_value}
use otcat.Codec.Encoders.{
  Console, json_sink, json_encode, csv_encode, csv_encode_row, csv_write, csv_flush, write_out,
}

module _ (stamp : ℕ → Text) where
  -- A float32 that has no JSON text is not encoded: the encoder answers an error, writes nothing and
  -- keeps no error, so that it encodes the next value as if this one had not been.
  pub json_encode_no_text :
      (json_float : ℕ → Option Text) (v : Value) (bits : ℕ) (k : Console)
      → v.value ≡ scalar (Scalar.float32 bits)
      → json_float bits ≡ none
      → k.json_err ≡ none
      → json_encode stamp json_float v k ≡ (some output_failed, record k { tick = suc k.tick })
  unfolding json_encode json_value json_payload json_scalar
  json_encode_no_text json_float v bits k h n e = ground (arith, e, h, n)

  -- A write error ends the CSV encoder: every later value answers the same error and writes nothing.
  pub csv_encode_sticky :
      (float_text : ℕ → Text) (v : Value) (k : Console) (e : Error)
      → k.csv_err ≡ some e
      → (csv_encode stamp float_text v k).0 ≡ some e
        × ((csv_encode stamp float_text v k).1.written ≡ k.written)
  unfolding csv_encode csv_encode_row csv_write csv_flush write_out
  csv_encode_sticky float_text v k e h = ground (arith, h)

  -- A JSON encoder that answers no error keeps none.
  json_encode-none :
      (json_float : ℕ → Option Text) (v : Value) (k : Console)
      → (json_encode stamp json_float v k).0 ≡ none
      → (json_encode stamp json_float v k).1.json_err ≡ none
  unfolding json_encode
  json_encode-none json_float v k h = ground (arith, h)

  module _ (d : Device) (json_float : ℕ → Option Text) (c : Config) where
    abbrev sink : Sink
    sink = json_sink stamp json_float

    -- The state of a watch behind some rounds.
    abbrev Watched : Type 0
    Watched = Status Value × d.State × Console

    abbrev go_on : List Moment → Watched → Watched
    go_on ms (running p, s, k) = watch_from d sink c ms p s k
    go_on ms (returned e p, s, k) = (returned e p, s, k)
    go_on ms (panicked p, s, k) = (panicked p, s, k)

    abbrev round_of : Moment → Poll Value → d.State → Console → Watched
    round_of m p s k =
        let (round, s', k') = play d sink c m s k in (poll_round (watch_options c) round p, s', k')

    watch_from_step :
        (m : Moment) (ms : List Moment) (p : Poll Value) (s : d.State) (k : Console)
        → watch_from d sink c (m ∷ ms) p s k ≡ go_on ms (round_of m p s k)
    unfolding watch_from
    watch_from_step m ms p s k =
        elim (poll_round (watch_options c) (play d sink c m s k).0 p)
          as (λ r.
            (elim r [
              | running p' ↦
                  watch_from d sink c ms p' (play d sink c m s k).1 (play d sink c m s k).2
              | returned e p' ↦ (returned e p', (play d sink c m s k).1, (play d sink c m s k).2)
              | panicked p' ↦ (panicked p', (play d sink c m s k).1, (play d sink c m s k).2)
            ])
            ≡ go_on ms (r, (play d sink c m s k).1, (play d sink c m s k).2)) [
              | running p' ↦ refl
              | returned e p' ↦ refl
              | panicked p' ↦ refl
            ]

    watch_from-append :
        (before ms : List Moment) (p : Poll Value) (s : d.State) (k : Console)
        → watch_from d sink c (before ++ ms) p s k ≡ go_on ms (watch_from d sink c before p s k)
    watch_from-append [] ms p s k = unfold watch_from in refl
    watch_from-append (m ∷ before) ms p s k =
        watch_from_step m (before ++ ms) p s k
        ∙ go (round_of m p s k) (λ q t x. watch_from-append before ms q t x)
        ∙ ap (go_on ms) (sym (watch_from_step m before p s k))
      where
        go :
            (w : Watched)
            → ((q : Poll Value) (t : d.State) (x : Console)
                → watch_from d sink c (before ++ ms) q t x
                  ≡ go_on ms (watch_from d sink c before q t x))
            → go_on (before ++ ms) w ≡ go_on ms (go_on before w)
        go (running p', s', k') more = more p' s' k'
        go (returned e p', s', k') more = refl
        go (panicked p', s', k') more = refl

    -- Nothing of the encoder has failed while a watch runs.
    abbrev IsClean : Watched → Type 0
    IsClean w = (p : Poll Value) → w.0 ≡ running p → w.2.json_err ≡ none

    round-IsClean :
        (m : Moment) (p : Poll Value) (s : d.State) (k : Console)
        → k.json_err ≡ none
        → IsClean (round_of m p s k)
    unfolding play poll_round on_success
    round-IsClean m p s k h p' e = elim (Option-cases m.ctx_err) [
      | inr (stop, late) ↦ absurd (ground (arith, e, late))
      | inl calm ↦ go (d.read c.watch_spec s).0 refl calm
    ]
      where
        go :
            (r : Result Value)
            → (d.read c.watch_spec s).0 ≡ r
            → m.ctx_err ≡ none
            → (play d sink c m s k).2.json_err ≡ none
        go (err x) q calm = ground (arith, q, calm, h)
        go (ok v) q calm = elim (Option-cases (json_encode stamp json_float v k).0) [
          | inl written ↦ ground (arith, q, calm, json_encode-none json_float v k written)
          | inr (x, broken) ↦ absurd (ground (arith, e, q, calm, broken))
        ]

    watch_from-IsClean :
        (ms : List Moment) (p : Poll Value) (s : d.State) (k : Console)
        → k.json_err ≡ none
        → IsClean (watch_from d sink c ms p s k)
    watch_from-IsClean [] p s k h = unfold watch_from in (λ p' e. h)
    watch_from-IsClean (m ∷ ms) p s k h = subst IsClean (sym (watch_from_step m ms p s k)) (
        go (round_of m p s k) (round-IsClean m p s k h)
          (λ q t x fresh. watch_from-IsClean ms q t x fresh))
      where
        go :
            (w : Watched)
            → IsClean w
            → ((q : Poll Value) (t : d.State) (x : Console)
                → x.json_err ≡ none
                → IsClean (watch_from d sink c ms q t x))
            → IsClean (go_on ms w)
        go (running q, s', k') clean more = more q s' k' (clean q refl)
        go (returned e q, s', k') clean more = clean
        go (panicked q, s', k') clean more = clean

    -- However many rounds a watch with JSON output, the default, has run, and whatever failed reads it has
    -- outlived in them, from an encoder with no error on: in a round whose context has not ended, a value
    -- read without an error that is a float32 with no JSON text ends the watch, with exit code 5 and nothing
    -- of the value written, whatever rounds were still to come.
    pub run_watch_no_text :
        (before ms : List Moment) (m : Moment) (s0 s s' : d.State) (k0 k : Console) (p : Poll Value)
        (v : Value) (bits : ℕ)
        → k0.json_err ≡ none
        → watch_from d sink c before start s0 k0 ≡ (running p, s, k)
        → m.ctx_err ≡ none
        → d.read c.watch_spec s ≡ (ok v, s')
        → v.value ≡ scalar (Scalar.float32 bits)
        → json_float bits ≡ none
        → run_watch d sink c (before ++ (m ∷ ms)) s0 k0
          ≡ (some exit_io, s', record k { tick = suc k.tick })
    unfolding run_watch watch_exit play poll_round on_success
    run_watch_no_text before ms m s0 s s' k0 k p v bits clean ran calm reads h n =
        let fresh : k.json_err ≡ none =
          subst IsClean ran (watch_from-IsClean before start s0 k0 clean) p refl in
        let failed : json_encode stamp json_float v k
            ≡ (some output_failed, record k { tick = suc k.tick }) =
          json_encode_no_text json_float v bits k h n fresh in
        let last : watch_from d sink c (before ++ (m ∷ ms)) start s0 k0
            ≡ watch_from d sink c (m ∷ ms) p s k =
          watch_from-append before (m ∷ ms) start s0 k0 ∙ ap (go_on (m ∷ ms)) ran in
        rw (last, watch_from_step m ms p s k) (ground (arith, calm, reads, failed))
