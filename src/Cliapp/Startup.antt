-- ===== src/Cliapp/Startup.antt =====
-- `buildDriver` and `buildEncoder` of internal/cliapp/cliapp.go, and the drivers of
-- internal/cliapp/stubs.go, internal/eip, internal/s7 and internal/bacnet.
pub mod Flags
use otcat.Base.{
  ℕ, ◌%◌, ◌≡◌, ◌≤◌, refl, Bool, true, false, not, ◌||◌, Option, some, none, List, [], ◌∷◌, ◌++◌,
  arith, ltb, ◌==◌, if◌then◌else◌, Text, codes,
}
use otcat.Base.Strings.{one_of}
use otcat.Base.Int.{ℤ, pos, negsuc}
use otcat.Errors.{Result, ok, err, ◌>>=◌, not_implemented, no_endpoint_selected, unknown_format}
use otcat.Errors.{Error}
use otcat.Protocol.{Value, WritePlan}
use otcat.Modbus.Convert.{parse_data_type, parse_byte_order, parse_word_order}
use otcat.Modbus.Driver.Encoding.{Options}
use otcat.Cliapp.Config.{
  Config, given, positive, validate, validate_write, validate_rest, endpoints, count_non_empty,
}
use otcat.Cliapp.Interfaces.{Device, Sink}

-- The three protocols with a reserved driver.
pub data Stub : Type 0 where
  eip s7 bacnet : Stub

unfoldable pub stub_name : Stub → Text
stub_name eip = codes "eip"
stub_name s7 = codes "s7"
stub_name bacnet = codes "bacnet"

-- A reserved driver fails every call; it has no state and leaves the one it is given.
abbrev pub stub_device : Type 0 → Device
stub_device S = record {
  State = S;
  connect = λ s. (some not_implemented, s);
  close = λ s. s;
  read = λ spec s. (err not_implemented, s);
  write = λ spec literal s. (err not_implemented, s);
  explain = none;
}

-- The driver that the flags choose, and the address that it dials.
pub data Chosen : Type 0 where
  modbus : Text → Options → Chosen
  reserved : Stub → Text → Chosen

-- `strings.Contains(s, ":")`
unfoldable pub has_colon : Text → Bool
has_colon [] = false
has_colon (c ∷ s) = c == b':' || has_colon s

unfoldable pub with_port : Text → Text
with_port addr = if has_colon addr then addr else addr ++ codes ":502"

-- A timeout is positive once `validate` has passed.
abbrev pub nanoseconds : ℤ → ℕ
nanoseconds (pos n) = n
nanoseconds (negsuc n) = 0

unfoldable pub modbus_options : Config → Result Options
modbus_options c = do
  dt ← parse_data_type c.data_type
  bo ← parse_byte_order c.byte_order
  wo ← parse_word_order c.word_order
  ok (record {
    unit_id = c.unit_id % 256;
    timeout = nanoseconds c.timeout;
    type = dt;
    byte_order = bo;
    word_order = wo;
    raw_address = c.raw_address;
  })

unfoldable pub build_driver : Config → Result Chosen
build_driver c =
    if given c.modbus_addr
    then (modbus_options c >>= λ opt. ok (modbus (with_port c.modbus_addr) opt))
    else if given c.eip_addr
    then ok (reserved eip c.eip_addr)
    else if given c.s7_addr
    then ok (reserved s7 c.s7_addr)
    else if given c.bacnet_addr
    then ok (reserved bacnet c.bacnet_addr)
    else err no_endpoint_selected

pub data Format : Type 0 where
  json csv raw : Format

unfoldable pub build_encoder : Text → Result Format
build_encoder format =
    if one_of format (codes "json" ∷ [])
    then ok json
    else if one_of format (codes "csv" ∷ [])
    then ok csv
    else if one_of format (codes "raw" ∷ [])
    then ok raw
    else err unknown_format

-- The drivers that the constructors make from what `buildDriver` passes them, over one type of states.
pub record Drivers : Type 1 where
  pub State : Type 0
  pub connect : Chosen → State → Option Error × State
  pub close : Chosen → State → State
  pub read : Chosen → Text → State → Result Value × State
  pub write : Chosen → Text → Text → State → Result (Unit {0}) × State
  pub explain : Chosen → Option (Text → Text → Result WritePlan)

abbrev pub driver_of : Drivers → Chosen → Device
driver_of ds chosen = record {
  State = ds.State;
  connect = ds.connect chosen;
  close = ds.close chosen;
  read = ds.read chosen;
  write = ds.write chosen;
  explain = ds.explain chosen;
}

-- The encoders that `buildEncoder` chooses from, over one standard output.
pub record Outputs : Type 1 where
  pub Out : Type 0
  pub encode : Format → Value → Out → Option Error × Out
  pub encode_plan : WritePlan → Out → Option Error × Out

abbrev pub encoder_of : Outputs → Format → Sink
encoder_of os format = record {
  Out = os.Out;
  encode = os.encode format;
  encode_plan = os.encode_plan;
}
