-- ===== src/Modbus/Driver/Session.antt =====
-- `Connect`, `Close`, `Read` and `Write` of internal/modbus/driver.go. `read` and `write` take the
-- options and act on the client that `connect` made; a call before `Connect` is a nil dereference,
-- which no caller makes. `parse_float` is as in Convert.
use otcat.Base.{
  ℕ, zero, suc, ◌+◌, ◌*◌, ◌/◌, ◌%◌, Bool, false, not, Option, some, none, List, [], ◌∷◌, ◌++◌, ◌==◌,
  if◌then◌else◌, get_or, take, drop, Text, codes,
}
use otcat.Errors.{Result, ok, err, IoResult, invalid_input, count_not_multiple}
use otcat.Protocol.{Value, flag, flags, scalar, scalars, good}
use otcat.Modbus.Address.{is_bits, Spec, parse_spec, spec_string}
use otcat.Modbus.Convert.{DataType, register_count, data_type_string, Codec, Scalar, decode}
use otcat.Modbus.Transport.{Transport}
use otcat.Modbus.Client.{
  Client, M, ◌>>=◌, ◌>>◌, pure, lift, fail_if, new_client, with_unit_id, with_timeout, close_client,
  read_coils, read_discrete_inputs, read_holding_registers, read_input_registers, write_single_coil,
  write_single_register, write_multiple_registers, write_multiple_coils,
}
use otcat.Modbus.Client as Client
use otcat.Modbus.Driver.Encoding.{Options, codec_of, is_coil, is_holding, encode_write}

pub record Driver (Conn : Type 0) : Type 0 where
  pub addr : Text
  pub opt : Options
  pub client : Option (Client Conn)

unfoldable pub new_driver : {Conn : Type 0} → Text → Options → Driver Conn
new_driver addr opt = record { addr = addr; opt = opt; client = none }

abbrev pub name : Text
name = codes "modbus"

-- The values of `n` groups of `width` registers, from group `i` on; the first error ends them.
unfoldable pub decode_groups : Codec → DataType → List ℕ → ℕ → ℕ → Result (List Scalar)
decode_groups c t regs zero i = ok []
decode_groups c t regs (suc n) i =
    let rest = decode_groups c t regs n (i + 1) in
    elim (decode c t (take (register_count t) (drop (i * register_count t) regs))) [
      | err e ↦ err e
      | ok v ↦ elim rest [ err e ↦ err e | ok vs ↦ ok (v ∷ vs) ]
    ]

-- The value of the registers that a read of `count` returned.
unfoldable pub register_value : Options → Spec → ℕ → List ℕ → Result Value
register_value opt sp count regs =
    let width = register_count opt.type in
    let n = count / width in
    if count == width
    then elim (decode (codec_of opt) opt.type regs) [
      | err e ↦ err e
      | ok v ↦ ok (record {
        address = spec_string sp;
        type_name = data_type_string opt.type;
        value = scalar v;
        quality = good;
        raw = regs;
      })
    ]
    else if not (count % width == 0)
    then err (invalid_input count_not_multiple)
    else elim (decode_groups (codec_of opt) opt.type regs n 0) [
      | err e ↦ err e
      | ok vs ↦ ok (record {
        address = spec_string sp;
        type_name = data_type_string opt.type ++ codes "[]";
        value = scalars vs;
        quality = good;
        raw = regs;
      })
    ]

-- The value of the bits that a read of `count` returned.
unfoldable pub bit_value : Spec → ℕ → List Bool → Value
bit_value sp count bits = record {
  address = spec_string sp;
  type_name = if count == 1 then codes "bool" else codes "bool[]";
  value = if count == 1 then flag (get_or bits 0 false) else flags bits;
  quality = good;
  raw = [];
}

abbrev pub count_or : Spec → ℕ → ℕ
count_or sp n = if sp.count == 0 then n else sp.count

module _ (t : Transport) where
  open t use {Conn}

  unfoldable pub connect : IoResult Conn → Driver Conn → Result (Unit {0}) × Driver Conn
  connect dialed d =
      let fresh =
        new_client d.addr (with_unit_id d.opt.unit_id ∷ with_timeout d.opt.timeout ∷ []) in
      let (r, c) = Client.connect t dialed fresh in (r, record d { client = some c })

  unfoldable pub close : Driver Conn → Result (Unit {0}) × Driver Conn
  close d = elim d.client [
    | none ↦ (ok tt, d)
    | some c ↦ let (r, c') = close_client t c in (r, record d { client = some c' })
  ]

  unfoldable pub read_bits : Spec → M Conn Value
  read_bits sp = do
    let count = count_or sp 1
    bits ←
        (if is_coil sp.table
          then read_coils t sp.address count
          else read_discrete_inputs t sp.address count)
    pure (bit_value sp count bits)

  unfoldable pub read_registers : Options → Spec → M Conn Value
  read_registers opt sp = do
    let count = count_or sp (register_count opt.type)
    regs ←
        (if is_holding sp.table
          then read_holding_registers t sp.address count
          else read_input_registers t sp.address count)
    lift (register_value opt sp count regs)

  unfoldable pub read : Options → Text → M Conn Value
  read opt spec = do
    sp ← lift (parse_spec spec opt.raw_address)
    if is_bits sp.table then read_bits sp else read_registers opt sp

  -- The request that `Write` chooses for what was encoded.
  unfoldable pub send_coils : ℕ → List Bool → M Conn (Unit {0})
  send_coils address (b ∷ []) = write_single_coil t address b
  send_coils address coils = write_multiple_coils t address coils

  unfoldable pub send_registers : ℕ → List ℕ → M Conn (Unit {0})
  send_registers address (r ∷ []) = write_single_register t address r
  send_registers address regs = write_multiple_registers t address regs

  unfoldable pub write : (Text → Option ℕ) → Options → Text → Text → M Conn (Unit {0})
  write parse_float opt spec literal = do
    w ← lift (encode_write parse_float opt spec literal)
    if is_coil w.spec.table
        then send_coils w.spec.address w.coils
        else send_registers w.spec.address w.regs
