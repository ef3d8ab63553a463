-- ===== src/Cliapp/Parse.antt =====
-- `parseArgs` of internal/cliapp/flags.go, and `Run` of internal/cliapp/cliapp.go from the arguments on.
-- `time.ParseDuration` is the parameter `parse_duration`.
pub mod Printed
pub mod Groups
pub mod RoundTrip
pub mod Codes
pub mod Keeps
pub mod Silent
pub mod Confirm
use otcat.Base.{
  ℕ, suc, Bool, true, false, ◌&&◌, Option, some, none, List, [], ◌∷◌, length, if◌then◌else◌, Text,
  codes,
}
use otcat.Base.Int.{ℤ, pos, negsuc}
use otcat.Cliapp.Config.{Config}
use otcat.Cliapp.Exit.{exit_ok, exit_usage}
use otcat.Cliapp.Startup.{Drivers, Outputs}
use otcat.Cliapp.Actions.{Input}
use otcat.Cliapp.Run.{Moment, run}
use otcat.Cliapp.Args.{
  Flag, string_var, bool_var, uint_var, duration_var, FlagError, help_requested, csv_and_raw, Step,
  finished, failed, seen, parse_all,
}

-- The variables that the flags set.
pub record Vars : Type 0 where
  pub config : Config
  pub json_flag : Bool
  pub csv_flag : Bool
  pub raw_flag : Bool

abbrev pub default_config : Config
default_config = record {
  modbus_addr = [];
  eip_addr = [];
  s7_addr = [];
  bacnet_addr = [];
  read_spec = [];
  watch_spec = [];
  write_spec = [];
  value = [];
  from_stdin = false;
  confirm = false;
  dry_run = false;
  format = [];
  unit_id = 1;
  data_type = codes "uint16";
  byte_order = codes "big";
  word_order = codes "high";
  raw_address = false;
  timeout = pos 5_000_000_000;
  interval = pos 1_000_000_000;
  max_backoff = pos 30_000_000_000;
  count = 0;
  show_version = false;
  show_help = false;
}

abbrev pub default_vars : Vars
default_vars = record {
  config = default_config;
  json_flag = false;
  csv_flag = false;
  raw_flag = false;
}

abbrev pub string_flag : (Text → Config → Config) → Flag Vars
string_flag put = string_var (λ s c. record c { config = put s c.config })

abbrev pub bool_flag : (Bool → Config → Config) → Flag Vars
bool_flag put = bool_var (λ b c. record c { config = put b c.config })

abbrev pub uint_flag : (ℕ → Config → Config) → Flag Vars
uint_flag put = uint_var (λ n c. record c { config = put n c.config })

abbrev pub duration_flag : (ℤ → Config → Config) → Flag Vars
duration_flag put = duration_var (λ d c. record c { config = put d c.config })

-- The flags in the order of their definition.
unfoldable pub flag_table : List (Text × Flag Vars)
flag_table =
    (codes "modbus", string_flag (λ s c. record c { modbus_addr = s }))
    ∷ (codes "eip", string_flag (λ s c. record c { eip_addr = s }))
    ∷ (codes "s7comm", string_flag (λ s c. record c { s7_addr = s }))
    ∷ (codes "bacnet", string_flag (λ s c. record c { bacnet_addr = s }))
    ∷ (codes "read", string_flag (λ s c. record c { read_spec = s }))
    ∷ (codes "watch", string_flag (λ s c. record c { watch_spec = s }))
    ∷ (codes "write", string_flag (λ s c. record c { write_spec = s }))
    ∷ (codes "value", string_flag (λ s c. record c { value = s }))
    ∷ (codes "from-stdin", bool_flag (λ b c. record c { from_stdin = b }))
    ∷ (codes "confirm", bool_flag (λ b c. record c { confirm = b }))
    ∷ (codes "dry-run", bool_flag (λ b c. record c { dry_run = b }))
    ∷ (codes "json", bool_var (λ b c. record c { json_flag = b }))
    ∷ (codes "csv", bool_var (λ b c. record c { csv_flag = b }))
    ∷ (codes "raw", bool_var (λ b c. record c { raw_flag = b }))
    ∷ (codes "unit", uint_flag (λ n c. record c { unit_id = n }))
    ∷ (codes "type", string_flag (λ s c. record c { data_type = s }))
    ∷ (codes "byte-order", string_flag (λ s c. record c { byte_order = s }))
    ∷ (codes "word-order", string_flag (λ s c. record c { word_order = s }))
    ∷ (codes "raw-address", bool_flag (λ b c. record c { raw_address = b }))
    ∷ (codes "timeout", duration_flag (λ d c. record c { timeout = d }))
    ∷ (codes "interval", duration_flag (λ d c. record c { interval = d }))
    ∷ (codes "max-backoff", duration_flag (λ d c. record c { max_backoff = d }))
    ∷ (codes "count", uint_flag (λ n c. record c { count = n }))
    ∷ (codes "version", bool_flag (λ b c. record c { show_version = b }))
    ∷ (codes "help", bool_flag (λ b c. record c { show_help = b }))
    ∷ []

pub data Parsed : Type 0 where
  refused : FlagError → Parsed
  parsed : Config → Parsed

-- The switch on the output flags.
unfoldable pub with_format : Vars → Parsed
with_format c =
    if c.csv_flag && c.raw_flag
    then refused csv_and_raw
    else parsed (record c.config {
      format = if c.csv_flag then codes "csv" else if c.raw_flag then codes "raw" else codes "json";
    })

-- What follows `fs.Parse`; the arguments behind the flags are not looked at.
abbrev pub after_flags : Step Vars → Option Parsed
after_flags (finished rest c) = some (with_format c)
after_flags (failed e) = some (refused e)
after_flags (seen rest c) = none

module _ (parse_duration : Text → Option ℤ) where
  -- `none` stands for a loop that has not ended.
  unfoldable pub parse_args : List Text → Option Parsed
  parse_args args = elim (parse_all parse_duration flag_table args default_vars) [
    | none ↦ none
    | some r ↦ after_flags r
  ]

  module _ (ds : Drivers) (os : Outputs) where
    open ds use {State}
    open os use {Out}

    -- The exit code of `Run`; `none` where it is still running.
    unfoldable pub run_args : List Text → Input → List Moment → State → Out → Option ℕ × State × Out
    run_args args i ms s out = elim (parse_args args) [
      | none ↦ (none, s, out)
      | some (refused help_requested) ↦ (some exit_ok, s, out)
      | some (refused _) ↦ (some exit_usage, s, out)
      | some (parsed c) ↦ run ds os c i ms s out
    ]
