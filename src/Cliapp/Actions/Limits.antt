-- ===== src/Cliapp/Actions/Limits.antt =====
-- The Modbus driver as the command line's driver, and its exit code for a count over the limit.
use otcat.Base.{none, some, ℕ, ◌≡◌, ◌<◌, false, Option, arith, Text}
use otcat.Errors.{IoResult, err, ok}
use otcat.Modbus.Address.{Spec, is_bits, parse_spec}
use otcat.Modbus.Transport.{Transport}
use otcat.Modbus.Client.{
  close_client, Client, read_holding_registers, read_input_registers, read_registers_with,
}
use otcat.Modbus.Driver.Encoding.{explain_write, Options}
use otcat.Modbus.Driver.Session.{connect, new_driver, read, write, read_registers}
use otcat.Cliapp.Config.{Config}
use otcat.Cliapp.Exit.{exit_io, classify_err}
use otcat.Cliapp.Interfaces.{Device, Sink}
use otcat.Cliapp.Actions.{run_read}

module _ (t : Transport) (parse_float : Text → Option ℕ) where
  open t use {Conn}

  -- `protocol.Driver` as the Modbus driver of `NewDriver addr opt` fills it; its state is the client that
  -- `Connect` makes. `dialed` is what the dialer returns, and `explain` what `ExplainWrite` is.
  abbrev pub modbus_device : IoResult Conn → Text → Options → Device
  modbus_device dialed addr opt = record {
    State = Client Conn;
    connect = λ c.
        let (r, driver) = connect t dialed (new_driver addr opt) in
        (
          elim r [ ok done ↦ none | err e ↦ some e ],
          elim driver.client [ none ↦ c | some c' ↦ c' ],
        );
    close = λ c. (close_client t c).1;
    read = read t opt;
    write = write t parse_float opt;
    explain = some (explain_write parse_float opt);
  }

  -- For any output: a read of more than 125 registers exits with the I/O code, not the usage code, and
  -- leaves the client and the output as they were.
  pub run_read_over_limit :
      (o : Sink) (dialed : IoResult Conn) (addr : Text) (opt : Options) (c : Config) (sp : Spec)
      (client : Client Conn) (out : o.Out)
      → parse_spec c.read_spec opt.raw_address ≡ ok sp
      → is_bits sp.table ≡ false
      → 125 < sp.count
      → run_read (modbus_device dialed addr opt) o c client out ≡ (exit_io, client, out)
  unfolding run_read read read_registers read_holding_registers read_input_registers
      read_registers_with classify_err
  run_read_over_limit o dialed addr opt c sp client out parsed words big = ground (arith, parsed)
