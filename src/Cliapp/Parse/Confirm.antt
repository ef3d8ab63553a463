-- ===== src/Cliapp/Parse/Confirm.antt =====
-- The confirmation of internal/cliapp/flags.go over the whole of `Run`: it comes from the command line
-- only.
use otcat.Base.{
  length, subst, ℕ, zero, suc, ◌≡◌, refl, ◌∙◌, sym, true, false, Option, some, none, List, [], ◌∷◌,
  Text, All, arith,
}
use otcat.Base.Int.{ℤ}
use otcat.Cliapp.Config.{Config, given}
use otcat.Cliapp.Startup.{Drivers, Outputs}
use otcat.Cliapp.Actions.{Input}
use otcat.Cliapp.Run.{Moment}
use otcat.Cliapp.Run.Confirmed.{IsUntouched, run_unconfirmed}
use otcat.Cliapp.Args.{Step, finished, failed, seen, parse_one, parse_loop, parse_all}
use otcat.Cliapp.Args.Append.{undashed_ends}
use otcat.Cliapp.Args.Loop.{after, loop_step}
use otcat.Cliapp.Parse.{
  run_args, Vars, default_vars, flag_table, parsed, with_format, after_flags, parse_args,
}
use otcat.Cliapp.Parse.Keeps.{IsSilent, IsUnconfirmed}
use otcat.Cliapp.Parse.Codes.{run_args_parsed}
use otcat.Cliapp.Parse.Silent.{Leaves, parse_one-Leaves}

module _ (parse_duration : Text → Option ℤ) where
  parse_one-finished :
      (args rest : List Text) (c c' : Vars)
      → parse_one parse_duration flag_table args c ≡ finished rest c'
      → c ≡ c'
  unfolding parse_one
  parse_one-finished [] rest c c' e = ground (arith, e)
  parse_one-finished ([] ∷ args) rest c c' e = ground (arith, e)
  parse_one-finished ((d ∷ []) ∷ args) rest c c' e = ground (arith, e)
  parse_one-finished ((d ∷ f ∷ s) ∷ args) rest c c' e = ground (
    arith,
    e,
    undashed_ends parse_duration flag_table (d ∷ f ∷ s) (f ∷ s) args c rest c',
    undashed_ends parse_duration flag_table (d ∷ f ∷ s) s args c rest c',
  )

  loop-Leaves :
      (n : ℕ) (args rest : List Text) (c c' : Vars)
      → Leaves parse_duration args c
      → parse_loop parse_duration n flag_table args c ≡ some (finished rest c')
      → IsUnconfirmed c'
  unfolding parse_loop
  loop-Leaves zero args rest c c' h e = absurd (ground (arith, e))
  loop-Leaves (suc n) args rest c c' h e =
      go (parse_one parse_duration flag_table args c) refl
        (sym (loop_step parse_duration flag_table n args c) ∙ e) (λ r k. loop-Leaves n r rest k c')
    where
      go :
          (r : Step Vars)
          → parse_one parse_duration flag_table args c ≡ r
          → after parse_duration flag_table n r ≡ some (finished rest c')
          → ((r : List Text) (k : Vars)
              → Leaves parse_duration r k
              → parse_loop parse_duration n flag_table r k ≡ some (finished rest c')
              → IsUnconfirmed c')
          → IsUnconfirmed c'
      go (finished r k) p q more =
          let same : k ≡ c' = ground (arith, q) in
          subst IsUnconfirmed (parse_one-finished args r c k p ∙ same) h.1
      go (failed f) p q more = absurd (ground (arith, q))
      go (seen r k) p q more = more r k (parse_one-Leaves parse_duration args r c k h p) q

  with_format_confirm :
      (c : Vars) (k : Config) → with_format c ≡ parsed k → k.confirm ≡ c.config.confirm
  unfolding with_format
  with_format_confirm c k e = ground (arith, e)

  -- If no argument names the flag, as -confirm or --confirm with or without a value, what `parseArgs` reads
  -- is not confirmed.
  pub parse_args-IsSilent :
      (args : List Text) (c : Config)
      → All IsSilent args
      → parse_args parse_duration args ≡ some (parsed c)
      → c.confirm ≡ false
  unfolding parse_args
  parse_args-IsSilent args c silent e =
      go (parse_all parse_duration flag_table args default_vars) refl e
    where
      go :
          (o : Option (Step Vars))
          → parse_all parse_duration flag_table args default_vars ≡ o
          → elim o [ none ↦ none | some r ↦ after_flags r ] ≡ some (parsed c)
          → c.confirm ≡ false
      go none p q = absurd (ground (arith, q))
      go (some (finished rest k)) p q =
          let read : with_format k ≡ parsed c = ground (arith, q) in
          with_format_confirm k c read
          ∙ (unfold parse_all in
              loop-Leaves (suc (length args)) args rest default_vars k (silent, refl) p)
      go (some (failed f)) p q = absurd (ground (arith, q))
      go (some (seen rest k)) p q = absurd (ground (arith, q))

  module _ (ds : Drivers) (os : Outputs) where
    open ds use {State}
    open os use {Out}

    -- With any drivers and outputs: if the arguments ask for a write, none of them names -confirm, and stdin
    -- is no terminal, `Run` leaves the state as it was, or the driver that the flags choose connected, or
    -- connected and closed again.
    pub run_args_silent :
        (args : List Text) (c : Config) (i : Input) (ms : List Moment) (s : State) (out : Out)
        → All IsSilent args
        → parse_args parse_duration args ≡ some (parsed c)
        → given c.write_spec ≡ true
        → i.is_interactive ≡ false
        → IsUntouched ds os c s (run_args parse_duration ds os args i ms s out).1
    run_args_silent args c i ms s out silent e writes deaf =
        let off = parse_args-IsSilent args c silent e in
        subst (λ r. IsUntouched ds os c s r.1)
          (sym (run_args_parsed parse_duration ds os args c i ms s out e))
          (run_unconfirmed ds os c i ms s out (λ h. ground (arith, h, off, deaf)) writes)
