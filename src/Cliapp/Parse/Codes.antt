-- ===== src/Cliapp/Parse/Codes.antt =====
-- What `parseArgs` and `Run` of internal/cliapp do with command lines that are wrong, and with what stands
-- behind the flags.
use otcat.Base.{◌⊎◌, ◌≡◌, ◌≢◌, ap, Option, some, none, List, [], ◌∷◌, ◌++◌, Text, arith}
use otcat.Base.Int.{ℤ}
use otcat.Cliapp.Exit.{exit_ok, exit_usage}
use otcat.Cliapp.Startup.{Drivers, Outputs}
use otcat.Cliapp.Actions.{Input}
use otcat.Cliapp.Run.{Moment, run}
use otcat.Cliapp.Args.{FlagError, help_requested, Step, finished, failed, seen, parse_all}
use otcat.Cliapp.Args.Loop.{IsEnd, parse_all-some}
use otcat.Cliapp.Args.Append.{IsPositional, parse_all-positional}
use otcat.Cliapp.Parse.{
  parsed, Config, Vars, default_vars, flag_table, refused, Parsed, with_format, after_flags,
  parse_args, run_args,
}

module _ (parse_duration : Text → Option ℤ) where
  -- Whatever the arguments, `parseArgs` returns, with a configuration or with an error.
  pub parse_args-some :
      (args : List Text) → (r : Parsed) × (parse_args parse_duration args ≡ some r)
  unfolding parse_args
  parse_args-some args = go (parse_all-some parse_duration flag_table args default_vars)
    where
      go :
          (r : Step Vars) × IsEnd parse_duration flag_table r
            × (parse_all parse_duration flag_table args default_vars ≡ some r)
          → (p : Parsed) × (elim (parse_all parse_duration flag_table args default_vars) [
            | none ↦ none
            | some r ↦ after_flags r
          ]
              ≡ some p)
      go (finished rest c, ended, e) =
          (with_format c, ap (λ o. elim o [ none ↦ none | some r ↦ after_flags r ]) e)
      go (failed f, ended, e) =
          (refused f, ap (λ o. elim o [ none ↦ none | some r ↦ after_flags r ]) e)
      go (seen rest c, ended, e) = absurd ended

  -- Where `parseArgs` reads a command line to its end, a positional argument behind it makes it ignore
  -- every argument that follows, flags included: the result is the same as without them.
  pub parse_args-positional :
      (args : List Text) (s : Text) (rest : List Text) (c : Vars)
      → parse_all parse_duration flag_table args default_vars ≡ some (finished [] c)
      → IsPositional s
      → parse_args parse_duration (args ++ (s ∷ rest)) ≡ parse_args parse_duration args
  unfolding parse_args
  parse_args-positional args s rest c h p =
      ground
        (arith, h, parse_all-positional parse_duration flag_table args s rest default_vars c p h)

  module _ (ds : Drivers) (os : Outputs) where
    open ds use {State}
    open os use {Out}

    -- A command line that `parseArgs` refuses ends `Run` with exit code 1, or 0 where it asks for help with
    -- an undefined -h; driver and output are left as they were.
    pub run_args_refused :
        (args : List Text) (e : FlagError) (i : Input) (ms : List Moment) (s : State) (out : Out)
        → parse_args parse_duration args ≡ some (refused e)
        → (run_args parse_duration ds os args i ms s out ≡ (some exit_ok, s, out))
            × (e ≡ help_requested)
          ⊎ (run_args parse_duration ds os args i ms s out ≡ (some exit_usage, s, out))
            × (e ≢ help_requested)
    unfolding run_args
    run_args_refused args e i ms s out h = ground (arith, h)

    pub run_args_parsed :
        (args : List Text) (c : Config) (i : Input) (ms : List Moment) (s : State) (out : Out)
        → parse_args parse_duration args ≡ some (parsed c)
        → run_args parse_duration ds os args i ms s out ≡ run ds os c i ms s out
    unfolding run_args
    run_args_parsed args c i ms s out e = ground (arith, e)
