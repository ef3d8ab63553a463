-- ===== src/Runs/Arguments.antt =====
-- The command line of internal/cliapp/flags.go at concrete inputs.
use otcat.Base.{none, All, ◌≡◌, refl, some, List, [], ◌∷◌, ◌++◌, Text, codes, arith, true, false}
use otcat.Base.Int.{pos}
use otcat.Runs.Durations.{duration_text, parse_duration, printed}
use otcat.Cliapp.Actions.{Input}
use otcat.Cliapp.Run.Confirmed.{IsUntouched}
use otcat.Cliapp.Parse.Keeps.{IsSilent, flag_name}
use otcat.Cliapp.Parse.Confirm.{run_args_silent}
use otcat.Runs.Commands.{log_drivers, log_outputs}
use otcat.Cliapp.Config.{Config}
use otcat.Cliapp.Startup.{csv}
use otcat.Cliapp.Args.{
  parse_bool, cut_value, name_and_value, find_flag, set_flag, assign, set_seen, named, undashed,
  parse_one, parse_loop, finished, parse_all,
}
use otcat.Cliapp.Parse.{
  run_args, with_format, Vars, default_config, default_vars, flag_table, parsed, parse_args,
}
use otcat.Cliapp.Parse.Printed.{args_of}
use otcat.Cliapp.Parse.RoundTrip.{parse_args-args_of}
use otcat.Cliapp.Parse.Codes.{parse_args-positional}

abbrev tables : Config
tables = record default_config {
  modbus_addr = codes "plc:502";
  watch_spec = codes "holding:40001";
  timeout = pos 5;
  interval = pos 2;
  max_backoff = pos 9;
  count = 3;
  confirm = false;
  raw_address = true;
}

parse_args-args_of_example :
    parse_args parse_duration (args_of duration_text csv tables)
    ≡ some (parsed (record tables { format = codes "csv" }))
parse_args-args_of_example =
    parse_args-args_of parse_duration duration_text printed csv tables (omega arith) (omega arith)
      (record { timeout = omega arith; interval = omega arith; max_backoff = omega arith })

abbrev write_args : List Text
write_args = codes "--write" ∷ codes "holding:40001" ∷ codes "-value=5" ∷ codes "--confirm" ∷ []

abbrev write_vars : Vars
write_vars = record default_vars {
  config = record default_config {
    write_spec = codes "holding:40001";
    value = codes "5";
    confirm = true;
  };
}

write_args-read :
    parse_all parse_duration flag_table write_args default_vars ≡ some (finished [] write_vars)
unfolding parse_all parse_loop parse_one undashed named set_seen assign set_flag find_flag
    name_and_value cut_value flag_table parse_bool
write_args-read = refl

-- The value of --confirm is a positional argument, and the dry run behind it is not asked for.
parse_args-positional_example :
    parse_args parse_duration (write_args ++ (codes "false" ∷ codes "--dry-run" ∷ []))
    ≡ parse_args parse_duration write_args
parse_args-positional_example =
    parse_args-positional parse_duration write_args (codes "false") (codes "--dry-run" ∷ [])
      write_vars write_args-read (λ e. ground (arith, e))

abbrev silent_args : List Text
silent_args = codes "--write" ∷ codes "holding:40001" ∷ codes "-value=5" ∷ []

silent_args-IsSilent : All IsSilent silent_args
unfolding flag_name name_and_value cut_value
silent_args-IsSilent = ground arith

silent_args-parsed :
    parse_args parse_duration silent_args
    ≡ some (
        parsed (record default_config {
          write_spec = codes "holding:40001";
          value = codes "5";
          format = codes "json";
        }))
unfolding parse_args parse_all parse_loop parse_one undashed named set_seen assign set_flag
    find_flag name_and_value cut_value flag_table parse_bool with_format
silent_args-parsed = refl

abbrev piped : Input
piped = record { lines = codes "y" ∷ []; scan_err = none; is_interactive = false }

abbrev silent_config : Config
silent_config = record default_config {
  write_spec = codes "holding:40001";
  value = codes "5";
  format = codes "json";
}

run_args_silent_example :
    IsUntouched log_drivers log_outputs silent_config []
      (run_args parse_duration log_drivers log_outputs silent_args piped [] [] []).1
run_args_silent_example =
    run_args_silent parse_duration log_drivers log_outputs silent_args silent_config piped [] [] []
      silent_args-IsSilent silent_args-parsed refl refl
