-- ===== src/Runs/Whole.antt =====
-- A whole command at concrete inputs: the register 10 of a mock server.
use otcat.Base.{if◌then◌else◌, ◌∷◌, false, ℕ, ◌≡◌, refl, [], Option, some, none, arith, codes, Text}
use otcat.Errors.{done, failed, net, IoResult}
use otcat.Modbus.Address.{spec_string}
use otcat.Mock.Link.{link}
use otcat.Codec.Json.{json_value}
use otcat.Codec.Encoders.{new_console}
use otcat.Cliapp.Exit.{exit_ok}
use otcat.Cliapp.Actions.{Input}
use otcat.Cliapp.Program.{program_drivers, program_outputs}
use otcat.Cliapp.Startup.{with_port, has_colon}
use otcat.Base.Strings.{one_of}
use otcat.Mock.Connection.{Peer}
use otcat.Cliapp.Parse.{run_args}
use otcat.EndToEnd.{printed}
use otcat.EndToEnd.Registers.{read_args, register, read_value, used_client, run_args-read}
use otcat.Runs.Wire.{peer, client, peer-IsIdle, holding-IsU16}
use otcat.Runs.Outputs.{stamp, json_float, float_text}
use otcat.Runs.Durations.{parse_duration}

abbrev no_floats : Text → Option ℕ
no_floats s = none

abbrev no_input : Input
no_input = record { lines = []; scan_err = none; is_interactive = false }

-- The dialer finds the server at one address.
abbrev dial : Text → IoResult Peer
dial addr = if one_of addr (codes "plc:502" ∷ []) then done peer else failed (net false)

run_args-read_example :
    (line : Text) × (json_value json_float
        (stamp 0)
        (read_value parse_duration no_floats stamp json_float float_text peer 10)
      ≡ some line)
    × (run_args parse_duration
          (program_drivers link no_floats dial)
          (program_outputs stamp json_float float_text)
          (read_args (codes "plc") 7 (spec_string (register 10)))
          no_input
          []
          client
          (new_console [])
        ≡ (
          some exit_ok,
          used_client parse_duration no_floats stamp json_float float_text (codes "plc") 7,
          printed stamp json_float line (new_console []),
        ))
unfolding with_port has_colon
run_args-read_example =
    run_args-read parse_duration no_floats stamp json_float float_text dial (codes "plc") 7 10
      no_input [] client peer (new_console []) refl (omega arith) refl peer-IsIdle holding-IsU16
      (omega arith) refl refl
