-- ===== src/Cliapp/Run/Offline.antt =====
-- The command lines on which `Run` of internal/cliapp/cliapp.go never calls its driver.
use otcat.Base.{refl, inl, inr, inr, inl, ◌≡◌, ◌≢◌, ◌⊎◌, true, ◌&&◌, none, List, arith}
use otcat.Cliapp.Config.{Config, given, validate}
use otcat.Cliapp.Startup.{Drivers, Outputs, build_driver, build_encoder}
use otcat.Cliapp.Actions.{Input}
use otcat.Cliapp.Run.{ok, err, Format, Chosen, Result, run_with, Moment, run_built, run}

module _ (ds : Drivers) (os : Outputs) where
  open ds use {State}
  open os use {Out}

  run_with_dry :
      (c : Config) (i : Input) (ms : List Moment) (s : State) (out : Out) (r : Result Chosen)
      (f : Result Format)
      → (given c.write_spec && c.dry_run) ≡ true
      → (run_with ds os r f c i ms s out).1 ≡ s
  unfolding run_with run_built
  run_with_dry c i ms s out (err e) f dry = refl
  run_with_dry c i ms s out (ok chosen) (err e) dry = refl
  run_with_dry c i ms s out (ok chosen) (ok format) dry = ground (arith, dry)

  -- With any drivers and outputs: if the flags ask for the help or the version, do not pass `validate`,
  -- or ask for a dry run of a write, then `Run` leaves the driver as it was, not even connected.
  pub run_offline :
      (c : Config) (i : Input) (ms : List Moment) (s : State) (out : Out)
      → (c.show_help ≡ true)
        ⊎ (c.show_version ≡ true)
        ⊎ (validate c ≢ none)
        ⊎ ((given c.write_spec && c.dry_run) ≡ true)
      → (run ds os c i ms s out).1 ≡ s
  unfolding run
  run_offline c i ms s out (inl help) = ground (arith, help)
  run_offline c i ms s out (inr (inl version)) = ground (arith, version)
  run_offline c i ms s out (inr (inr (inl bad))) = ground (arith, bad)
  run_offline c i ms s out (inr (inr (inr dry))) =
      ground (arith, run_with_dry c i ms s out (build_driver c) (build_encoder c.format) dry)
