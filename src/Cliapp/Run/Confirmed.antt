-- ===== src/Cliapp/Run/Confirmed.antt =====
-- The safety rule of internal/cliapp/actions.go over the whole of `Run`.
use otcat.Base.{refl, sym, subst, none, ◌≡◌, ◌⊎◌, inl, inr, true, false, List, arith, Option-cases}
use otcat.Cliapp.Config.{Config, given, validate, actions, count_non_empty}
use otcat.Cliapp.Config.Usable.{validate_iff, actions_one}
use otcat.Cliapp.Interfaces.{Device, Sink}
use otcat.Cliapp.Startup.{
  Drivers, Outputs, Chosen, driver_of, encoder_of, build_driver, build_encoder, Format,
}
use otcat.Errors.{Result, ok, err}
use otcat.Cliapp.Actions.{Input}
use otcat.Cliapp.Actions.Gate.{IsConfirmed, run_write_unconfirmed}
use otcat.Cliapp.Run.{run_with, Moment, act, connect_and_act, run_built, run}

one_action :
    (c : Config)
    → actions c ≡ 1
    → given c.write_spec ≡ true
    → (given c.read_spec ≡ false) × (given c.watch_spec ≡ false)
unfolding count_non_empty
one_action c one writes = ground (arith, one, writes)

module _ (d : Device) where
  open d use {State}

  -- What a run may leave of a driver that it neither reads nor writes.
  abbrev IsLeft : State → State → Type 0
  IsLeft s s' = (s' ≡ s) ⊎ (s' ≡ (d.connect s).1) ⊎ (s' ≡ d.close (d.connect s).1)

module _ (d : Device) (o : Sink) where
  open d use {State}
  open o use {Out}

  act_unconfirmed :
      (c : Config) (i : Input) (ms : List Moment) (s : State) (out : Out)
      → ¬ (IsConfirmed c i)
      → given c.write_spec ≡ true
      → actions c ≡ 1
      → (act d o c i ms s out).1 ≡ d.close s
  unfolding act
  act_unconfirmed c i ms s out refused writes one =
      ground (arith, one_action c one writes, writes, run_write_unconfirmed d o c i s out refused)

  built_unconfirmed :
      (c : Config) (i : Input) (ms : List Moment) (s : State) (out : Out)
      → ¬ (IsConfirmed c i)
      → given c.write_spec ≡ true
      → actions c ≡ 1
      → IsLeft d s (run_built d o c i ms s out).1
  unfolding run_built connect_and_act
  built_unconfirmed c i ms s out refused writes one =
      ground (arith, act_unconfirmed c i ms (d.connect s).1 out refused writes one)

module _ (ds : Drivers) (os : Outputs) where
  open ds use {State}
  open os use {Out}

  -- The state is as it was, or the driver that the flags choose is connected, or connected and closed
  -- again.
  abbrev pub IsUntouched : Config → State → State → Type 0
  IsUntouched c s s' =
      (s' ≡ s)
      ⊎ ((chosen : Chosen) × (build_driver c ≡ ok chosen)
          × ((s' ≡ (ds.connect chosen s).1) ⊎ (s' ≡ ds.close chosen (ds.connect chosen s).1)))

  run_built-IsUntouched :
      (c : Config) (chosen : Chosen) (s s' : State)
      → build_driver c ≡ ok chosen
      → IsLeft (driver_of ds chosen) s s'
      → IsUntouched c s s'
  run_built-IsUntouched c chosen s s' built (inl same) = inl same
  run_built-IsUntouched c chosen s s' built (inr left) = inr (chosen, built, left)

  run_with_unconfirmed :
      (c : Config) (i : Input) (ms : List Moment) (s : State) (out : Out) (r : Result Chosen)
      (f : Result Format)
      → build_driver c ≡ r
      → ¬ (IsConfirmed c i)
      → given c.write_spec ≡ true
      → actions c ≡ 1
      → IsUntouched c s (run_with ds os r f c i ms s out).1
  unfolding run_with
  run_with_unconfirmed c i ms s out (err e) f built refused writes one = inl refl
  run_with_unconfirmed c i ms s out (ok chosen) (err e) built refused writes one = inl refl
  run_with_unconfirmed c i ms s out (ok chosen) (ok format) built refused writes one =
      run_built-IsUntouched c chosen s _ built (
        built_unconfirmed (driver_of ds chosen) (encoder_of os format) c i ms s out refused writes
          one)

  -- A run leaves the state, or passes the checks.
  run_cases :
      (c : Config) (i : Input) (ms : List Moment) (s : State) (out : Out)
      → ((run ds os c i ms s out).1 ≡ s)
        ⊎ ((validate c ≡ none)
            × (run ds os c i ms s out
                ≡ run_with ds os (build_driver c) (build_encoder c.format) c i ms s out))
  unfolding run
  run_cases c i ms s out = elim (Option-cases (validate c)) [
    | inl passed ↦ ground (arith, passed)
    | inr bad ↦ ground (arith, bad)
  ]

  -- With any drivers and outputs: if the flags ask for a write that is not confirmed, `Run` leaves the
  -- state as it was, or the driver that the flags choose connected, or connected and closed again.
  pub run_unconfirmed :
      (c : Config) (i : Input) (ms : List Moment) (s : State) (out : Out)
      → ¬ (IsConfirmed c i)
      → given c.write_spec ≡ true
      → IsUntouched c s (run ds os c i ms s out).1
  run_unconfirmed c i ms s out refused writes = elim (run_cases c i ms s out) [
    | inl same ↦ inl same
    | inr (passed, e) ↦
        subst (λ r. IsUntouched c s r.1) (sym e)
          (run_with_unconfirmed c i ms s out (build_driver c) (build_encoder c.format) refl refused
            writes (actions_one c ((validate_iff c).0 passed)))
  ]
