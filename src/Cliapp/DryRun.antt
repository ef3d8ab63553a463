-- ===== src/Cliapp/DryRun.antt =====
-- `runDryRun` of internal/cliapp/actions.go. It takes the driver's `ExplainWrite` where there is one,
-- and neither a connection nor a driver's state.
pub mod Plans
use otcat.Base.{
  ℕ, ◌≡◌, refl, Bool, true, false, ◌||◌, not, Option, some, none, List, [], ◌∷◌, arith, ◌==◌,
  if◌then◌else◌, Text, All, Bool-cases, inl, inr,
}
use otcat.Base.Strings.{trim_space}
use otcat.Errors.{Error, Result, ok, err}
use otcat.Protocol.{WritePlan}
use otcat.Cliapp.Config.{Config}
use otcat.Cliapp.Exit.{exit_ok, exit_usage, exit_io}
use otcat.Cliapp.Interfaces.{Sink}
use otcat.Cliapp.Actions.{Input, is_skipped}

module _ (o : Sink) (explain_write : Text → Text → Result WritePlan) where
  open o use {Out}

  unfoldable pub explain : Text → Text → Out → ℕ × Out
  explain spec literal out = elim (explain_write spec literal) [
    | err e ↦ (exit_usage, out)
    | ok plan ↦
        let (e, out') = o.encode_plan plan out in
        (elim e [ some e ↦ exit_io | none ↦ exit_ok ], out')
  ]

  -- The loop over the lines; a line that fails does not end it.
  unfoldable pub explain_lines : Text → List Text → Option Error → Bool → Out → ℕ × Out
  explain_lines spec [] (some e) had_err out = (exit_io, out)
  explain_lines spec [] none had_err out = (if had_err then exit_usage else exit_ok, out)
  explain_lines spec (line ∷ lines) scan_err had_err out = elim (is_skipped (trim_space line)) [
    | true ↦ explain_lines spec lines scan_err had_err out
    | false ↦
        let (code, out') = explain spec (trim_space line) out in
        explain_lines spec lines scan_err (had_err || not (code == exit_ok)) out'
  ]

  -- Every literal has a plan.
  abbrev pub HasPlans : Text → List Text → Type 0
  HasPlans spec [] = Unit {0}
  HasPlans spec (l ∷ ls) =
      ((plan : WritePlan) × (explain_write spec l ≡ ok plan)) × HasPlans spec ls

unfoldable pub run_dry_run :
    (o : Sink) → Option (Text → Text → Result WritePlan) → Config → Input → o.Out → ℕ × o.Out
run_dry_run o none c i out = (exit_usage, out)
run_dry_run o (some explain_write) c i out =
    if c.from_stdin
    then explain_lines o explain_write c.write_spec i.lines i.scan_err false out
    else explain o explain_write c.write_spec c.value out
