-- ===== src/Runs/Commands.antt =====
-- internal/cliapp at concrete inputs, over a driver that keeps what is written to it and an output
-- that keeps what is encoded.
use otcat.Base.{
  inr, ℕ, ◌≡◌, refl, ◌↔◌, List, [], ◌∷◌, Option, some, none, true, false, arith, codes, Text,
}
use otcat.Base.Int.{pos}
use otcat.Base.Strings.{trim_space, trim_left, is_space}
use otcat.Errors.{failed, eof, Error, ok, err, not_connected}
use otcat.Protocol.{Value}
use otcat.Modbus.Address.{Table, Spec, parse_spec, spec_string, resolve_offset}
use otcat.Modbus.Address.RoundTrip.{parse-spec_string}
use otcat.Modbus.Client.{Client}
use otcat.Modbus.Driver.Encoding.{Options, default_options}
use otcat.Mock.Server.{Server}
use otcat.Mock.Connection.{Peer}
use otcat.Mock.Link.{link}
use otcat.Cliapp.Config.{Config, validate}
use otcat.Cliapp.Config.Usable.{IsUsable, validate_iff}
use otcat.Cliapp.Exit.{exit_ok, exit_io}
use otcat.Cliapp.Interfaces.{Device, Sink}
use otcat.Cliapp.Actions.{Input, emit_ack, write_and_ack, run_read, run_write_stream}
use otcat.Cliapp.Startup.{Drivers, Outputs}
use otcat.Cliapp.Run.{run}
use otcat.Cliapp.Run.Offline.{run_offline}
use otcat.Cliapp.Run.Confirmed.{IsUntouched, run_unconfirmed}
use otcat.Cliapp.Actions.Gate.{IsConfirmed}
use otcat.Cliapp.Actions.Stream.{literals, Wrote, run_write_stream_ok}
use otcat.Cliapp.Actions.Limits.{modbus_device, run_read_over_limit}

abbrev pub log_device : Device
log_device = record {
  State = List Text;
  connect = λ s. (none, s);
  close = λ s. s;
  read = λ spec s. (err not_connected, s);
  write = λ spec literal s. (ok tt, literal ∷ s);
  explain = none;
}

abbrev pub log_sink : Sink
log_sink = record {
  Out = List Value;
  encode = λ v out. (none, v ∷ out);
  encode_plan = λ p out. (none, out);
}

abbrev pub log_drivers : Drivers
log_drivers = record {
  State = List Text;
  connect = λ chosen. log_device.connect;
  close = λ chosen. log_device.close;
  read = λ chosen. log_device.read;
  write = λ chosen. log_device.write;
  explain = λ chosen. none;
}

abbrev pub log_outputs : Outputs
log_outputs = record {
  Out = List Value;
  encode = λ format. log_sink.encode;
  encode_plan = log_sink.encode_plan;
}

abbrev over_limit : Spec
over_limit = record { table = Table.holding_register; address = 0; count = 126 }

-- A write with a value, not confirmed.
abbrev write_config : Config
write_config = record {
  modbus_addr = codes "plc";
  eip_addr = [];
  s7_addr = [];
  bacnet_addr = [];
  read_spec = [];
  watch_spec = [];
  write_spec = codes "holding:40001";
  value = codes "7";
  from_stdin = false;
  confirm = false;
  dry_run = false;
  format = codes "json";
  unit_id = 1;
  data_type = codes "uint16";
  byte_order = codes "big";
  word_order = codes "high";
  raw_address = false;
  timeout = pos 5;
  interval = pos 1;
  max_backoff = pos 30;
  count = 0;
  show_version = false;
  show_help = false;
}

abbrev pipe : Input
pipe = record { lines = codes "yes" ∷ []; scan_err = none; is_interactive = false }

validate_iff_example : (validate write_config ≡ none) ↔ IsUsable write_config
validate_iff_example = validate_iff write_config

pipe-unconfirmed : ¬ (IsConfirmed write_config pipe)
pipe-unconfirmed agreed = ground (arith, agreed)

abbrev stream : List Text
stream = codes " 1 " ∷ codes "# two" ∷ codes "3" ∷ []

stream-succeeds :
    (run_write_stream log_device log_sink (codes "holding:40001") stream none [] []).0 ≡ exit_ok
unfolding run_write_stream write_and_ack emit_ack trim_space trim_left is_space
stream-succeeds = refl

run_write_stream_ok_example :
    (◌≡◌ {A = Option Error} none none)
    × Wrote log_device log_sink
        (codes "holding:40001")
        []
        (literals stream)
        (run_write_stream log_device log_sink (codes "holding:40001") stream none [] []).1
run_write_stream_ok_example =
    run_write_stream_ok log_device log_sink (codes "holding:40001") stream none [] []
      stream-succeeds

abbrev plant : Server
plant = record { coils = λ _. false; discrete = λ _. false; holding = λ _. 0; input = λ _. 7 }

abbrev client : Client Peer
client = record {
  addr = codes "plc:502";
  unit_id = 1;
  timeout = 5;
  conn = some (record { server = plant; inbound = []; outbound = []; is_open = true; drops = [] });
  tx_id = 0;
}

abbrev no_floats : Text → Option ℕ
no_floats s = none

abbrev raw_options : Options
raw_options = record default_options { raw_address = true }

abbrev read_config : Config
read_config = record write_config {
  write_spec = [];
  value = [];
  read_spec = spec_string over_limit;
}

over_limit-parses : parse_spec (spec_string over_limit) true ≡ ok over_limit
unfolding resolve_offset
over_limit-parses = parse-spec_string over_limit true (omega arith) (omega arith)

run_read_over_limit_example :
    run_read
      (modbus_device link no_floats (failed eof) (codes "plc:502") raw_options)
      log_sink
      read_config
      client
      []
    ≡ (exit_io, client, [])
run_read_over_limit_example =
    run_read_over_limit link no_floats log_sink (failed eof) (codes "plc:502") raw_options
      read_config over_limit client [] over_limit-parses refl (omega arith)

-- A dry run in a pipe.
abbrev dry_config : Config
dry_config = record write_config { dry_run = true }

run_offline_example : (run log_drivers log_outputs dry_config pipe [] [] []).1 ≡ []
run_offline_example =
    run_offline log_drivers log_outputs dry_config pipe [] [] [] (inr (inr (inr refl)))

run_unconfirmed_example :
    IsUntouched log_drivers log_outputs write_config []
      (run log_drivers log_outputs write_config pipe [] [] []).1
run_unconfirmed_example =
    run_unconfirmed log_drivers log_outputs write_config pipe [] [] [] pipe-unconfirmed refl
