-- ===== src/Cliapp/Run.antt =====
-- `Run` of internal/cliapp/cliapp.go behind the parsing of flags, and `runWatch` of
-- internal/cliapp/actions.go. `run` works with the driver and the encoder that
-- `buildDriver` and `buildEncoder` answer.
pub mod Offline
pub mod Confirmed
use otcat.Base.{ℕ, Bool, true, false, ◌&&◌, Option, some, none, List, [], ◌∷◌, if◌then◌else◌}
use otcat.Errors.{Error, Result, ok, err, not_implemented}
use otcat.Protocol.{Value}
use otcat.Watch.Poller
use otcat.Watch.Poller.{Round, Poll, Status, running, returned, panicked, start, poll_round}
use otcat.Cliapp.Config.{Config, given, validate}
use otcat.Cliapp.Exit.{exit_ok, exit_usage, exit_connection}
use otcat.Cliapp.Interfaces.{Device, Sink}
use otcat.Cliapp.Startup.{
  Chosen, Format, build_driver, build_encoder, Drivers, Outputs, driver_of, encoder_of,
}
use otcat.Cliapp.DryRun.{run_dry_run}
use otcat.Cliapp.Actions.{Input, watch_options, watch_exit, run_read, run_write}

-- What the environment of one round of `watch.Run` does besides the reader and the output: the context
-- at the top, the generator, and the context during the sleep.
pub record Moment : Type 0 where
  pub ctx_err : Option Error
  pub draw : ℕ
  pub sleep_err : Option Error

module _ (d : Device) (o : Sink) where
  open d use {State}
  open o use {Out}

  -- One round's answers: a read of the driver, and the output of what it returns.
  unfoldable pub play : Config → Moment → State → Out → Round Value × State × Out
  play c m s out = elim m.ctx_err [
    | some e ↦ (
      record {
        ctx_err = some e;
        read = err e;
        draw = m.draw;
        emit_err = none;
        sleep_err = m.sleep_err;
      },
      s,
      out,
    )
    | none ↦
        let (r, s') = d.read c.watch_spec s in
        let written : Option Error × Out = elim r [ ok v ↦ o.encode v out | err e ↦ (none, out) ] in
        (
          record {
            ctx_err = none;
            read = r;
            draw = m.draw;
            emit_err = written.0;
            sleep_err = m.sleep_err;
          },
          s',
          written.1,
        )
  ]

  unfoldable pub watch_from :
      Config → List Moment → Poll Value → State → Out → Status Value × State × Out
  watch_from c [] p s out = (running p, s, out)
  watch_from c (m ∷ ms) p s out =
      let (round, s', out') = play c m s out in
      elim (poll_round (watch_options c) round p) [
        | running p' ↦ watch_from c ms p' s' out'
        | returned e p' ↦ (returned e p', s', out')
        | panicked p' ↦ (panicked p', s', out')
      ]

  -- `none` while the loop runs.
  unfoldable pub run_watch : Config → List Moment → State → Out → Option ℕ × State × Out
  run_watch c ms s out =
      let (status, s', out') = watch_from c ms start s out in (watch_exit status, s', out')

  -- The switch on the action, and the deferred `Close`.
  unfoldable pub act : Config → Input → List Moment → State → Out → Option ℕ × State × Out
  act c i ms s out =
      if given c.read_spec
      then (let (code, s', out') = run_read d o c s out in (some code, d.close s', out'))
      else if given c.watch_spec
      then (let (code, s', out') = run_watch c ms s out in (code, d.close s', out'))
      else if given c.write_spec
      then (let (code, s', out') = run_write d o c i s out in (some code, d.close s', out'))
      else (some exit_usage, d.close s, out)

  unfoldable pub connect_and_act :
      Config → Input → List Moment → State → Out → Option ℕ × State × Out
  connect_and_act c i ms s out =
      let (e, s') = d.connect s in
      elim e [
        | none ↦ act c i ms s' out
        | some not_implemented ↦ (some exit_usage, s', out)
        | some _ ↦ (some exit_connection, s', out)
      ]

  -- `Run` once the driver and the encoder are built.
  unfoldable pub run_built : Config → Input → List Moment → State → Out → Option ℕ × State × Out
  run_built c i ms s out =
      if given c.write_spec && c.dry_run
      then (let (code, out') = run_dry_run o d.explain c i out in (some code, s, out'))
      else connect_and_act c i ms s out

module _ (ds : Drivers) (os : Outputs) where
  open ds use {State}
  open os use {Out}

  -- `Run` behind `buildDriver` and `buildEncoder`.
  unfoldable pub run_with :
      Result Chosen
      → Result Format
      → Config
      → Input
      → List Moment
      → State
      → Out
      → Option ℕ × State × Out
  run_with (err e) format c i ms s out = (some exit_usage, s, out)
  run_with (ok chosen) (err e) c i ms s out = (some exit_usage, s, out)
  run_with (ok chosen) (ok format) c i ms s out =
      run_built (driver_of ds chosen) (encoder_of os format) c i ms s out

  unfoldable pub run : Config → Input → List Moment → State → Out → Option ℕ × State × Out
  run c i ms s out =
      if c.show_help
      then (some exit_ok, s, out)
      else if c.show_version
      then (some exit_ok, s, out)
      else elim (validate c) [
        | some e ↦ (some exit_usage, s, out)
        | none ↦ run_with (build_driver c) (build_encoder c.format) c i ms s out
      ]
