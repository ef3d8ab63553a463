-- ===== src/Cliapp/Actions.antt =====
-- internal/cliapp/actions.go over a driver and an output. An action returns its exit code and leaves
-- the state of both; what it prints on stderr is left out.
pub mod Gate
pub mod Stream
pub mod Limits
use otcat.Base.{
  ℕ, ◌^◌, Bool, true, false, not, ◌||◌, Option, some, none, List, [], ◌∷◌, ltb, ◌==◌, if◌then◌else◌,
  Text, codes,
}
use otcat.Base.Strings.{trim_space, to_lower, one_of}
use otcat.Errors.{Error, Result, ok, err, context_done}
use otcat.Protocol.{Value, text, good}
use otcat.Watch.Poller
use otcat.Watch.Poller.{Status, running, returned, panicked}
use otcat.Cliapp.Config.{Config, given}
use otcat.Cliapp.Exit.{exit_ok, exit_write_aborted, exit_io, exit_interrupted, classify_err}
use otcat.Cliapp.Interfaces.{Device, Sink}

-- Standard input: the lines that a `bufio.Scanner` gives, the error that ends them, and the answer of
-- `isInteractive`.
pub record Input : Type 0 where
  pub lines : List Text
  pub scan_err : Option Error
  pub is_interactive : Bool

unfoldable pub prompt_yes_no : Input → Result Bool
prompt_yes_no i = elim i.lines [
  | [] ↦ elim i.scan_err [ some e ↦ err e | none ↦ ok false ]
  | line ∷ rest ↦ ok (one_of (to_lower (trim_space line)) (codes "y" ∷ codes "yes" ∷ []))
]

-- `none` lets the write pass.
unfoldable pub gate_write : Config → Input → Option ℕ
gate_write c i =
    if c.confirm
    then none
    else if c.from_stdin
    then some exit_write_aborted
    else if not i.is_interactive
    then some exit_write_aborted
    else elim (prompt_yes_no i) [
      | err e ↦ some exit_io
      | ok true ↦ none
      | ok false ↦ some exit_write_aborted
    ]

-- `lit == "" || strings.HasPrefix(lit, "#")`
abbrev pub is_skipped : Text → Bool
is_skipped [] = true
is_skipped (c ∷ s) = c == b'#'

-- `watch.Options`; a `count` past the int range turns negative there, which is no limit.
unfoldable pub watch_options : Config → Poller.Options
watch_options c = record {
  interval = c.interval;
  max_backoff = c.max_backoff;
  count = if ltb c.count (2 ^ 63) then c.count else 0;
}

-- The exit code of `runWatch` when `watch.Run` has returned.
unfoldable pub watch_exit : {V : Type 0} → Status V → Option ℕ
watch_exit (running s) = none
watch_exit (panicked s) = none
watch_exit (returned none s) = some exit_ok
watch_exit (returned (some (context_done deadline)) s) = some exit_interrupted
watch_exit (returned (some _) s) = some exit_io

module _ (d : Device) (o : Sink) where
  open d use {State}
  open o use {Out}

  unfoldable pub run_read : Config → State → Out → ℕ × State × Out
  run_read c s out =
      let (r, s') = d.read c.read_spec s in
      elim r [
        | err e ↦ (classify_err e, s', out)
        | ok v ↦
            let (e, out') = o.encode v out in
            (elim e [ some e ↦ exit_io | none ↦ exit_ok ], s', out')
      ]

  abbrev pub ack : Text → Text → Value
  ack address literal = record {
    address = address;
    type_name = codes "ack";
    value = text literal;
    quality = good;
    raw = [];
  }

  unfoldable pub emit_ack : Text → Text → Out → ℕ × Out
  emit_ack address literal out =
      let (e, out') = o.encode (ack address literal) out in
      (elim e [ some e ↦ exit_io | none ↦ exit_ok ], out')

  -- One write with its acknowledgement.
  unfoldable pub write_and_ack : Text → Text → State → Out → ℕ × State × Out
  write_and_ack spec literal s out =
      let (r, s') = d.write spec literal s in
      elim r [
        | err e ↦ (classify_err e, s', out)
        | ok done ↦ let (code, out') = emit_ack spec literal out in (code, s', out')
      ]

  unfoldable pub run_write_stream : Text → List Text → Option Error → State → Out → ℕ × State × Out
  run_write_stream spec [] scan_err s out =
      (elim scan_err [ some e ↦ exit_io | none ↦ exit_ok ], s, out)
  run_write_stream spec (line ∷ lines) scan_err s out = elim (is_skipped (trim_space line)) [
    | true ↦ run_write_stream spec lines scan_err s out
    | false ↦
        let (code, s', out') = write_and_ack spec (trim_space line) s out in
        elim (code == exit_ok) [
          | true ↦ run_write_stream spec lines scan_err s' out'
          | false ↦ (code, s', out')
        ]
  ]

  unfoldable pub run_write : Config → Input → State → Out → ℕ × State × Out
  run_write c i s out = elim (gate_write c i) [
    | some code ↦ (code, s, out)
    | none ↦
        if c.from_stdin
        then run_write_stream c.write_spec i.lines i.scan_err s out
        else write_and_ack c.write_spec c.value s out
  ]
