-- ===== src/Cliapp/DryRun/Plans.antt =====
-- What an exit code of 0 of a dry run says.
use otcat.Base.{
  ◌≡◌, refl, Bool, true, false, ◌||◌, not, Option, some, none, List, [], ◌∷◌, arith, ◌==◌, Text,
  Bool-cases, inl, inr,
}
use otcat.Base.Strings.{trim_space}
use otcat.Errors.{Error, Result, ok, err}
use otcat.Protocol.{WritePlan}
use otcat.Cliapp.Exit.{exit_ok}
use otcat.Cliapp.Interfaces.{Sink}
use otcat.Cliapp.Actions.{is_skipped}
use otcat.Cliapp.Actions.Stream.{literals, literals_skipped, literals_kept}
use otcat.Cliapp.DryRun.{explain, explain_lines, HasPlans}

module _ (o : Sink) (explain_write : Text → Text → Result WritePlan) where
  open o use {Out}

  explain_ok :
      (spec literal : Text) (out : Out)
      → ((explain o explain_write spec literal out).0 == exit_ok) ≡ true
      → (plan : WritePlan) × (explain_write spec literal ≡ ok plan)
  unfolding explain
  explain_ok spec literal out h = by_cases (explain_write spec literal) refl
    where
      by_cases :
          (r : Result WritePlan)
          → explain_write spec literal ≡ r
          → (plan : WritePlan) × (explain_write spec literal ≡ ok plan)
      by_cases (ok plan) e = (plan, e)
      by_cases (err problem) e = absurd (ground (arith, h, e))

  lines_skipped :
      (spec line : Text) (lines : List Text) (e : Option Error) (had_err : Bool) (out : Out)
      → is_skipped (trim_space line) ≡ true
      → explain_lines o explain_write spec (line ∷ lines) e had_err out
        ≡ explain_lines o explain_write spec lines e had_err out
  unfolding explain_lines
  lines_skipped spec line lines e had_err out h = ground (arith, h)

  lines_kept :
      (spec line : Text) (lines : List Text) (e : Option Error) (had_err : Bool) (out : Out)
      → is_skipped (trim_space line) ≡ false
      → explain_lines o explain_write spec (line ∷ lines) e had_err out
        ≡ explain_lines o explain_write spec lines e
            (had_err || not ((explain o explain_write spec (trim_space line) out).0 == exit_ok))
            (explain o explain_write spec (trim_space line) out).1
  unfolding explain_lines
  lines_kept spec line lines e had_err out h = ground (arith, h)

  no_errors : (a b : Bool) → (a || not b) ≡ false → (a ≡ false) × (b ≡ true)
  no_errors a b h = ground (arith, h)

  -- With any `ExplainWrite` and output: if the dry run of stdin's lines exits with 0, then none failed
  -- before them, stdin ended without an error, and every literal of the lines, without blanks and
  -- comments, has a plan.
  pub explain_lines_ok :
      (spec : Text) (lines : List Text) (scan_err : Option Error) (had_err : Bool) (out : Out)
      → (explain_lines o explain_write spec lines scan_err had_err out).0 ≡ exit_ok
      → (had_err ≡ false) × (scan_err ≡ none) × HasPlans o explain_write spec (literals lines)
  explain_lines_ok spec [] none had_err out h = unfold explain_lines literals in ground (arith, h)
  explain_lines_ok spec [] (some e) had_err out h =
      absurd (unfold explain_lines in ground (arith, h))
  explain_lines_ok spec (line ∷ lines) scan_err had_err out h =
      elim (Bool-cases (is_skipped (trim_space line))) [
        | inl skip ↦ rw (literals_skipped line lines skip) (
            explain_lines_ok spec lines scan_err had_err out
              (rw (lines_skipped spec line lines scan_err had_err out skip) at h))
        | inr kept ↦
            let (fine, ended, more) =
              explain_lines_ok spec lines scan_err _ _
                (rw (lines_kept spec line lines scan_err had_err out kept) at h) in
            let (before, good) = no_errors had_err _ fine in
            rw (literals_kept line lines kept)
              (before, ended, (explain_ok spec (trim_space line) out good, more))
      ]
