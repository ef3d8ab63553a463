-- ===== src/EndToEnd/Registers.antt =====
-- `otcat --modbus HOST:PORT --read holding:N --raw-address`, through every layer from
-- internal/cliapp/flags.go down to internal/mock/server.go and back up to internal/codec/codec.go.
use otcat.Base.{
  ap, ◌%◌, ◌≤◌, ℕ, ◌+◌, ◌≡◌, ◌<◌, refl, ◌∙◌, true, Option, some, none, List, [], ◌∷◌, Text, codes,
  arith,
}
use otcat.Base.Strings.{trim_space, to_lower, lower_char}
use otcat.Cliapp.Args.{
  finished, parse_all, parse_loop, parse_one, undashed, named, set_seen, assign, set_flag,
  find_flag, name_and_value, cut_value, parse_bool,
}
use otcat.Cliapp.Parse.{flag_table, with_format, after_flags, Vars, default_vars}
use otcat.Cliapp.Parse.Printed.{Reads-string, Reads-uint}
use otcat.Base.Int.{ℤ}
use otcat.Base.Bytes.{IsU16}
use otcat.Errors.{ok, done, IoResult}
use otcat.Protocol.{Value}
use otcat.Modbus.Address.{resolve_offset, Table, Spec, spec_string, table_string}
use otcat.Modbus.Address.RoundTrip.{parse-spec_string}
use otcat.Modbus.Convert.{
  order_words, order_bytes, normalize, decode_words, DataType, Scalar, big_endian, high_word_first,
  decode, parse_data_type, parse_byte_order, parse_word_order,
}
use otcat.Modbus.Client as Client
use otcat.Modbus.Client.{close_client, Client, new_client, with_unit_id, with_timeout}
use otcat.Modbus.Driver.Encoding.{Options}
use otcat.Modbus.Driver.Session.{register_value, read_registers, read, connect, new_driver}
use otcat.Modbus.Driver.RoundTrip.{value_read}
use otcat.Mock.Server.{table_len}
use otcat.Mock.Connection.{Peer}
use otcat.Mock.Link.{link}
use otcat.Mock.Link.Calls.{IsIdle, IsReady, tx_of}
use otcat.Mock.Link.Registers.{read_holding_registers_lem}
use otcat.Codec.Json.{json_value, json_payload, json_scalar}
use otcat.Codec.Encoders.{Console}
use otcat.Cliapp.Config.{count_non_empty, validate_rest, validate_write, Config, given, validate}
use otcat.Cliapp.Exit.{exit_ok}
use otcat.Cliapp.Startup.{modbus_options, modbus, with_port, build_driver, build_encoder}
use otcat.Cliapp.Actions.{Input}
use otcat.Cliapp.Program.{program_drivers, program_outputs}
use otcat.Base.Strings.{itoa}
use otcat.Cliapp.Run.{Moment}
use otcat.Cliapp.Parse.{parsed, parse_args, run_args, default_config}
use otcat.Cliapp.Parse.Codes.{run_args_parsed}
use otcat.EndToEnd.{printed, json_encode_ok, run-read}

-- The command line, the configuration that it is, and the options that it builds.
abbrev pub read_args : Text → ℕ → Text → List Text
read_args addr u spec =
    codes "--modbus"
    ∷ addr
    ∷ codes "--unit"
    ∷ itoa u
    ∷ codes "--read"
    ∷ spec
    ∷ codes "--raw-address"
    ∷ []

abbrev read_config : Text → ℕ → Text → Config
read_config addr u spec = record default_config {
  modbus_addr = addr;
  unit_id = u;
  read_spec = spec;
  raw_address = true;
  format = codes "json";
}

abbrev pub raw_opt : ℕ → Options
raw_opt u = record {
  unit_id = u;
  timeout = 5_000_000_000;
  type = DataType.uint16;
  byte_order = big_endian;
  word_order = high_word_first;
  raw_address = true;
}

abbrev pub register : ℕ → Spec
register n = record { table = Table.holding_register; address = n; count = 0 }

abbrev last_args : Text → List Text
last_args spec = codes "--read" ∷ spec ∷ codes "--raw-address" ∷ []

abbrev seen_vars : Text → ℕ → Vars
seen_vars addr u = record default_vars {
  config = record default_config { modbus_addr = addr; unit_id = u };
}

last_args-parsed :
    (parse_duration : Text → Option ℤ) (addr : Text) (u : ℕ) (spec : Text)
    → parse_all parse_duration flag_table (last_args spec) (seen_vars addr u)
      ≡ some (
          finished [] (record default_vars {
            config = record default_config {
              modbus_addr = addr;
              unit_id = u;
              read_spec = spec;
              raw_address = true;
            };
          }))
unfolding parse_all parse_loop parse_one undashed named set_seen assign set_flag find_flag
    name_and_value cut_value flag_table parse_bool
last_args-parsed parse_duration addr u spec = refl

read_args-parsed :
    (parse_duration : Text → Option ℤ) (addr : Text) (u : ℕ) (spec : Text)
    → u ≤ 255
    → parse_args parse_duration (read_args addr u spec) ≡ some (parsed (read_config addr u spec))
unfolding parse_args with_format name_and_value cut_value find_flag flag_table
read_args-parsed parse_duration addr u spec h =
    ap (λ o. elim o [ none ↦ none | some r ↦ after_flags r ])
      (Reads-string parse_duration (codes "modbus") (λ x k. record k { modbus_addr = x }) addr
          (refl, refl, refl) (codes "--unit" ∷ itoa u ∷ last_args spec) default_vars
        ∙ Reads-uint parse_duration (codes "unit") (λ x k. record k { unit_id = x }) u
            (refl, refl, refl) (omega (arith, h)) (last_args spec)
            (record default_vars { config = record default_config { modbus_addr = addr } })
        ∙ last_args-parsed parse_duration addr u spec)

read_config-valid :
    (addr : Text) (u : ℕ) (spec : Text)
    → given addr ≡ true
    → u ≤ 255
    → given spec ≡ true
    → validate (read_config addr u spec) ≡ none
unfolding validate validate_write validate_rest count_non_empty
read_config-valid addr u spec h small k = ground (arith, h, small, k)

read_config-driver :
    (addr : Text) (u : ℕ) (spec : Text)
    → given addr ≡ true
    → u ≤ 255
    → build_driver (read_config addr u spec) ≡ ok (modbus (with_port addr) (raw_opt u))
unfolding build_driver modbus_options parse_data_type parse_byte_order parse_word_order trim_space
    to_lower lower_char
read_config-driver addr u spec h small =
    let fits : u % 256 ≡ u = omega (arith, small) in rw (h, fits) refl

spec-given : (n : ℕ) → given (spec_string (register n)) ≡ true
unfolding spec_string table_string
spec-given n = refl

ends : (n : ℕ) → n + 0 ≡ n
ends n = omega arith

read-register :
    (u n : ℕ) (c : Client Peer) (k : Peer)
    → IsReady c k
    → ((j : ℕ) → IsU16 (k.server.holding j))
    → n < table_len
    → read link (raw_opt u) (spec_string (register n)) c ≡ (
      ok (
          value_read
            (raw_opt u)
            (register n)
            (Scalar.uint16 (k.server.holding n))
            (k.server.holding n ∷ [])),
      record c { tx_id = tx_of c },
    )
unfolding read read_registers register_value decode decode_words normalize order_bytes order_words
    resolve_offset
read-register u n c k ready words range =
    rw
      (
        parse-spec_string (register n) true (omega arith) (omega arith),
        read_holding_registers_lem c k n 1 ready words (omega arith) (omega arith) (omega arith),
      )
      (rw (ends n) refl)

module _ (parse_duration : Text → Option ℤ) (parse_float : Text → Option ℕ) (stamp : ℕ → Text)
    (json_float : ℕ → Option Text) (float_text : ℕ → Text) where
  -- The command's value, and the JSON of it.
  abbrev pub read_value : Peer → ℕ → Value
  read_value k n =
      value_read (raw_opt 1) (register n) (Scalar.uint16 (k.server.holding n))
        (k.server.holding n ∷ [])

  json-read_value :
      (t : Text) (k : Peer) (n : ℕ)
      → (line : Text) × (json_value json_float t (read_value k n) ≡ some line)
  unfolding json_value json_payload json_scalar
  json-read_value t k n = (_, refl)

  -- The client behind the command: made for the address and the unit of the flags, closed again, one
  -- transaction later.
  abbrev pub used_client : Text → ℕ → Client Peer
  used_client addr u = record {
    addr = with_port addr;
    unit_id = u;
    timeout = 5_000_000_000;
    conn = none;
    tx_id = 1;
  }

  opened : Text → ℕ → Peer → Client Peer
  opened addr u k = record {
    addr = with_port addr;
    unit_id = u;
    timeout = 5_000_000_000;
    conn = some k;
    tx_id = 0;
  }

  connects :
      (dial : Text → IoResult Peer) (addr : Text) (u : ℕ) (c : Client Peer) (k : Peer)
      → dial (with_port addr) ≡ done k
      → (program_drivers link parse_float dial).connect (modbus (with_port addr) (raw_opt u)) c
        ≡ (none, opened addr u k)
  unfolding connect Client.connect new_driver new_client with_unit_id with_timeout opened
  connects dial addr u c k dials = rw dials refl

  -- Over the drivers and the encoders of the program: for any address that is not empty, any unit up to 255,
  -- and any register inside the table, where the address with its port leads to an idle connection to a
  -- mock server of 16-bit words, and the output has no errors, the command
  -- `otcat --modbus ADDRESS --unit UNIT --read holding:REGISTER --raw-address` prints one more line, the
  -- JSON of the value whose number and whose raw word are what the server holds in the register, leaves a
  -- client for that address and unit, closed, and exits with code 0.
  pub run_args-read :
      (dial : Text → IoResult Peer) (addr : Text) (u n : ℕ) (i : Input) (ms : List Moment)
      (c : Client Peer) (k : Peer) (out : Console)
      → given addr ≡ true
      → u ≤ 255
      → dial (with_port addr) ≡ done k
      → IsIdle k
      → ((j : ℕ) → IsU16 (k.server.holding j))
      → n < table_len
      → out.json_err ≡ none
      → out.results ≡ []
      → (line : Text) × (json_value json_float (stamp out.tick) (read_value k n) ≡ some line)
        × (run_args parse_duration
              (program_drivers link parse_float dial)
              (program_outputs stamp json_float float_text)
              (read_args addr u (spec_string (register n)))
              i
              ms
              c
              out
            ≡ (some exit_ok, used_client addr u, printed stamp json_float line out))
  unfolding close_client opened
  run_args-read dial addr u n i ms c k out h small dials idle words range e r =
      let (line, found) = json-read_value (stamp out.tick) k n in
      let spec = spec_string (register n) in
      let ds = program_drivers link parse_float dial in
      (
        line,
        found,
        run_args_parsed parse_duration ds (program_outputs stamp json_float float_text)
              (read_args addr u spec) (read_config addr u spec) i ms c out
              (read_args-parsed parse_duration addr u spec small)
            ∙ run-read stamp json_float float_text ds (read_config addr u spec)
                (modbus (with_port addr) (raw_opt u)) i ms c (opened addr u k)
                (record (opened addr u k) { tx_id = 1 }) (read_value k n) line out refl refl
                (read_config-valid addr u spec h small (spec-given n))
                (read_config-driver addr u spec h small) (unfold build_encoder in refl)
                (spec-given n) refl (connects dial addr u c k dials)
                (read-register u n (opened addr u k) k (record { connection = refl; idle = idle })
                  words range)
                (json_encode_ok stamp json_float (read_value k n) line out found e r),
      )
