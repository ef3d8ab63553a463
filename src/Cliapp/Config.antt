-- ===== src/Cliapp/Config.antt =====
-- `config` of internal/cliapp/flags.go and `validate` of internal/cliapp/cliapp.go.
pub mod Usable
use otcat.Base.{
  ℕ, ◌+◌, Bool, true, false, not, ◌&&◌, Option, some, none, List, [], ◌∷◌, ltb, leb, ◌==◌,
  if◌then◌else◌, length, Text,
}
use otcat.Base.Int.{ℤ, pos, negsuc}

-- A duration is a whole number of nanoseconds; `HasDurations` of Parse.RoundTrip says that those of a
-- configuration are int64s, as every `time.Duration` is.
pub record Config : Type 0 where
  pub modbus_addr : Text
  pub eip_addr : Text
  pub s7_addr : Text
  pub bacnet_addr : Text
  pub read_spec : Text
  pub watch_spec : Text
  pub write_spec : Text
  pub value : Text
  pub from_stdin : Bool
  pub confirm : Bool
  pub dry_run : Bool
  pub format : Text
  pub unit_id : ℕ
  pub data_type : Text
  pub byte_order : Text
  pub word_order : Text
  pub raw_address : Bool
  pub timeout : ℤ
  pub interval : ℤ
  pub max_backoff : ℤ
  pub count : ℕ
  pub show_version : Bool
  pub show_help : Bool

-- The usage errors, one for each message.
pub data UsageError : Type 0 where
  no_endpoint several_endpoints no_action several_actions : UsageError
  value_and_stdin write_without_value : UsageError
  value_without_write stdin_without_write dry_run_without_write confirm_without_write : UsageError
  bad_timeout bad_interval bad_unit : UsageError

-- `s != ""`
abbrev pub given : Text → Bool
given [] = false
given (c ∷ s) = true

unfoldable pub count_non_empty : List Text → ℕ
count_non_empty [] = 0
count_non_empty (s ∷ ss) = let n = count_non_empty ss in if given s then n + 1 else n

abbrev pub endpoints : Config → ℕ
endpoints c = count_non_empty (c.modbus_addr ∷ c.eip_addr ∷ c.s7_addr ∷ c.bacnet_addr ∷ [])

abbrev pub actions : Config → ℕ
actions c = count_non_empty (c.read_spec ∷ c.watch_spec ∷ c.write_spec ∷ [])

-- `d > 0`
abbrev pub positive : ℤ → Bool
positive (pos n) = not (n == 0)
positive (negsuc n) = false

-- The checks of the write flags; `none` passes.
unfoldable pub validate_write : Config → Option UsageError
validate_write c =
    if given c.write_spec
    then (if c.from_stdin && given c.value
        then some value_and_stdin
        else if not c.from_stdin && not (given c.value)
        then some write_without_value
        else none)
    else if given c.value
    then some value_without_write
    else if c.from_stdin
    then some stdin_without_write
    else if c.dry_run
    then some dry_run_without_write
    else if c.confirm
    then some confirm_without_write
    else none

unfoldable pub validate_rest : Config → Option UsageError
validate_rest c =
    if not (positive c.timeout)
    then some bad_timeout
    else if given c.watch_spec && not (positive c.interval)
    then some bad_interval
    else if ltb 255 c.unit_id
    then some bad_unit
    else none

unfoldable pub validate : Config → Option UsageError
validate c =
    if endpoints c == 0
    then some no_endpoint
    else if ltb 1 (endpoints c)
    then some several_endpoints
    else if actions c == 0
    then some no_action
    else if ltb 1 (actions c)
    then some several_actions
    else elim (validate_write c) [ some e ↦ some e | none ↦ validate_rest c ]
