-- ===== src/Cliapp/Actions/Stream.antt =====
-- `runWriteStream` of internal/cliapp/actions.go: what an exit code of 0 says.
use otcat.Base.{
  subst, ◌≡◌, true, false, Option, none, List, [], ◌∷◌, arith, ◌==◌, if◌then◌else◌, Text,
  Bool-cases, inl, inr,
}
use otcat.Base.Strings.{trim_space}
use otcat.Errors.{Error, ok}
use otcat.Cliapp.Exit.{exit_ok, classify_err}
use otcat.Cliapp.Interfaces.{Device, Sink}
use otcat.Cliapp.Actions.{is_skipped, emit_ack, write_and_ack, run_write_stream}

-- The literals of the lines: trimmed, without the empty ones and the comments.
unfoldable pub literals : List Text → List Text
literals [] = []
literals (line ∷ lines) =
    let rest = literals lines in
    if is_skipped (trim_space line) then rest else trim_space line ∷ rest

pub literals_skipped :
    (line : Text) (lines : List Text)
    → is_skipped (trim_space line) ≡ true
    → literals (line ∷ lines) ≡ literals lines
unfolding literals
literals_skipped line lines h = ground (arith, h)

pub literals_kept :
    (line : Text) (lines : List Text)
    → is_skipped (trim_space line) ≡ false
    → literals (line ∷ lines) ≡ trim_space line ∷ literals lines
unfolding literals
literals_kept line lines h = ground (arith, h)

module _ (d : Device) (o : Sink) where
  open d use {State}
  open o use {Out}

  -- Every literal is written, in order and with success.
  abbrev pub Wrote : Text → State → List Text → State → Type 0
  Wrote spec s [] s' = s ≡ s'
  Wrote spec s (l ∷ ls) s' = ((d.write spec l s).0 ≡ ok tt) × Wrote spec (d.write spec l s).1 ls s'

  classify_err-ne-ok : (e : Error) → (classify_err e == exit_ok) ≡ false
  unfolding classify_err
  classify_err-ne-ok e = ground arith

  -- A write whose exit code is 0 has succeeded.
  write_and_ack_ok :
      (spec literal : Text) (s : State) (out : Out)
      → ((write_and_ack d o spec literal s out).0 == exit_ok) ≡ true
      → ((d.write spec literal s).0 ≡ ok tt)
        × ((write_and_ack d o spec literal s out).1 ≡ (d.write spec literal s).1)
  unfolding write_and_ack emit_ack
  write_and_ack_ok spec literal s out h = grind (arith, classify_err-ne-ok)

  stream_skipped :
      (spec line : Text) (lines : List Text) (e : Option Error) (s : State) (out : Out)
      → is_skipped (trim_space line) ≡ true
      → run_write_stream d o spec (line ∷ lines) e s out ≡ run_write_stream d o spec lines e s out
  unfolding run_write_stream
  stream_skipped spec line lines e s out h = ground (arith, h)

  -- Behind a kept line that exits with 0 the loop goes on.
  stream_kept :
      (spec line : Text) (lines : List Text) (e : Option Error) (s : State) (out : Out)
      → is_skipped (trim_space line) ≡ false
      → (run_write_stream d o spec (line ∷ lines) e s out).0 ≡ exit_ok
      → (((write_and_ack d o spec (trim_space line) s out).0 == exit_ok) ≡ true)
        × (run_write_stream d o spec (line ∷ lines) e s out
            ≡ run_write_stream d o spec lines e
                (write_and_ack d o spec (trim_space line) s out).1
                (write_and_ack d o spec (trim_space line) s out).2)
  unfolding run_write_stream
  stream_kept spec line lines e s out kept h = ground (arith, kept, h)

  -- With any driver and output: if the stream of writes exits with 0, stdin ended without an error and
  -- every literal of its lines, without blanks and comments, was written in order and with success.
  pub run_write_stream_ok :
      (spec : Text) (lines : List Text) (scan_err : Option Error) (s : State) (out : Out)
      → (run_write_stream d o spec lines scan_err s out).0 ≡ exit_ok
      → (scan_err ≡ none)
        × Wrote spec s (literals lines) (run_write_stream d o spec lines scan_err s out).1
  run_write_stream_ok spec [] scan_err s out h =
      unfold run_write_stream literals in ground (arith, h)
  run_write_stream_ok spec (line ∷ lines) scan_err s out h =
      elim (Bool-cases (is_skipped (trim_space line))) [
        | inl skip ↦
            let step = stream_skipped spec line lines scan_err s out skip in
            rw (step, literals_skipped line lines skip)
              (run_write_stream_ok spec lines scan_err s out (rw step at h))
        | inr kept ↦
            let next = write_and_ack d o spec (trim_space line) s out in
            let (good, step) = stream_kept spec line lines scan_err s out kept h in
            let (sent, moved) = write_and_ack_ok spec (trim_space line) s out good in
            let (ended, more) = run_write_stream_ok spec lines scan_err _ _ (rw step at h) in
            rw (step, literals_kept line lines kept)
              (
                ended,
                (
                  sent,
                  subst
                      (λ from.
                        Wrote spec from (literals lines)
                          (run_write_stream d o spec lines scan_err next.1 next.2).1)
                      moved more,
                ),
              )
      ]
