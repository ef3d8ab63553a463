-- ===== src/Cliapp/Actions/Gate.antt =====
-- `gateWrite` of internal/cliapp/actions.go: when a write may be sent.
use otcat.Base.{◌≡◌, ◌⊎◌, ◌↔◌, true, false, none, arith}
use otcat.Errors.{ok}
use otcat.Cliapp.Config.{Config}
use otcat.Cliapp.Exit.{exit_write_aborted, exit_io}
use otcat.Cliapp.Interfaces.{Device, Sink}
use otcat.Cliapp.Actions.{Input, prompt_yes_no, gate_write, run_write}

-- The operator has agreed: by the flag, or at the prompt of a terminal that the values do not come from.
abbrev pub IsConfirmed : Config → Input → Type 0
IsConfirmed c i =
    (c.confirm ≡ true)
    ⊎ ((c.from_stdin ≡ false) × (i.is_interactive ≡ true) × (prompt_yes_no i ≡ ok true))

-- The gate lets a write pass exactly if it is confirmed by the flag, or the values do not come from
-- stdin, stdin is a terminal, and the prompt is answered with yes.
pub gate_write_iff : (c : Config) (i : Input) → (gate_write c i ≡ none) ↔ IsConfirmed c i
unfolding gate_write
gate_write_iff c i = ground arith

module _ (d : Device) (o : Sink) where
  open d use {State}
  open o use {Out}

  -- With any driver and output: a write that is not confirmed leaves the driver and the output as they
  -- were, and exits with the aborted code or, where the prompt cannot be read, the I/O code.
  pub run_write_unconfirmed :
      (c : Config) (i : Input) (s : State) (out : Out)
      → ¬ (IsConfirmed c i)
      → ((run_write d o c i s out).1 ≡ s)
        × ((run_write d o c i s out).2 ≡ out)
        × (((run_write d o c i s out).0 ≡ exit_write_aborted)
            ⊎ ((run_write d o c i s out).0 ≡ exit_io))
  unfolding run_write gate_write
  run_write_unconfirmed c i s out refused = ground (arith, refused)
