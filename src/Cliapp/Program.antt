-- ===== src/Cliapp/Program.antt =====
-- The drivers and the encoders that internal/cliapp/cliapp.go is linked with: those of internal/modbus, the
-- stubs of internal/cliapp/stubs.go, and those of internal/codec.
use otcat.Base.{ℕ, Option, Text}
use otcat.Errors.{Error, IoResult}
use otcat.Protocol.{Value}
use otcat.Modbus.Transport.{Transport}
use otcat.Modbus.Client.{Client}
use otcat.Cliapp.Startup.{modbus, reserved, stub_device, Format, json, csv, raw, Drivers, Outputs}
use otcat.Cliapp.Actions.Limits.{modbus_device}
use otcat.Codec.Encoders.{Console, json_encode, csv_encode, raw_encode, plan_encode}

-- `dial` is what the dialer returns for an address.
module _ (t : Transport) (parse_float : Text → Option ℕ) (dial : Text → IoResult t.Conn) where
  abbrev pub program_drivers : Drivers
  program_drivers = record {
    State = Client t.Conn;
    connect = λ chosen. elim chosen [
      | modbus addr opt ↦ (modbus_device t parse_float (dial addr) addr opt).connect
      | reserved kind addr ↦ (stub_device (Client t.Conn)).connect
    ];
    close = λ chosen. elim chosen [
      | modbus addr opt ↦ (modbus_device t parse_float (dial addr) addr opt).close
      | reserved kind addr ↦ (stub_device (Client t.Conn)).close
    ];
    read = λ chosen. elim chosen [
      | modbus addr opt ↦ (modbus_device t parse_float (dial addr) addr opt).read
      | reserved kind addr ↦ (stub_device (Client t.Conn)).read
    ];
    write = λ chosen. elim chosen [
      | modbus addr opt ↦ (modbus_device t parse_float (dial addr) addr opt).write
      | reserved kind addr ↦ (stub_device (Client t.Conn)).write
    ];
    explain = λ chosen. elim chosen [
      | modbus addr opt ↦ (modbus_device t parse_float (dial addr) addr opt).explain
      | reserved kind addr ↦ (stub_device (Client t.Conn)).explain
    ];
  }

module _ (stamp : ℕ → Text) (json_float : ℕ → Option Text) (float_text : ℕ → Text) where
  abbrev pub encode_as : Format → Value → Console → Option Error × Console
  encode_as json = json_encode stamp json_float
  encode_as csv = csv_encode stamp float_text
  encode_as raw = raw_encode stamp float_text

  abbrev pub program_outputs : Outputs
  program_outputs = record { Out = Console; encode = encode_as; encode_plan = plan_encode stamp }
