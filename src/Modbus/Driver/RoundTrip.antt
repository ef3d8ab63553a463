-- ===== src/Modbus/Driver/RoundTrip.antt =====
-- A register value that `Write` of internal/modbus/driver.go sends to the mock server is what `Read`
-- returns afterwards.
use otcat.Base.{
  ℕ, ◌+◌, ◌≤◌, ◌≡◌, refl, ap, Option, List, [], ◌∷◌, arith, length, Text, All, append-nil,
}
use otcat.Base.Int.{ℤ, pos, negsuc}
use otcat.Base.Bytes.{IsU16, u16}
use otcat.Base.Strings.{trim_space, split}
use otcat.Errors.{Result, ok, >>=-eq-ok}
use otcat.Protocol.{Value, scalar, good}
use otcat.Modbus.Address.{Table, Spec, parse_spec, spec_string}
use otcat.Modbus.Convert.{
  DataType, register_count, data_type_string, Codec, Scalar, decode, encode, encode_trimmed,
  parse_uint, parse_int, unsigned, parse_float_bits, split_words, denormalize,
}
use otcat.Modbus.Convert.Orders.{denormalize-IsU16, split_words-IsU16}
use otcat.Modbus.Convert.Scalars.{literal_value, Is32Bits, decode-encode}
use otcat.Modbus.Client.{Client, read_holding_registers, write_single_register}
use otcat.Modbus.Driver.Encoding.{Options, codec_of, encode_parts, encode_values, encode_write}
use otcat.Modbus.Driver.Session.{send_registers, write, read, read_registers, register_value}
use otcat.Mock.Server.{table_len, update}
use otcat.Mock.Connection.{Peer}
use otcat.Mock.Link.{link}
use otcat.Mock.Link.Calls.{IsReady}
use otcat.Mock.Link.Registers.{
  read_holding_registers_lem, write_multiple_registers-link, read-write_multiple_registers,
}
use otcat.Mock.Link.Coils.{client_with_server}
use otcat.Mock.Link.Singles.{write_single_register-link}

unsigned_16-IsU16 : (v : ℤ) → IsU16 (unsigned 16 v)
unfolding unsigned
unsigned_16-IsU16 (pos n) = omega arith
unsigned_16-IsU16 (negsuc n) = omega arith

sent :
    (c : Codec) (words regs : List ℕ)
    → All IsU16 words
    → denormalize c words ≡ regs
    → All IsU16 regs
sent c words regs h e = rw (← e) (denormalize-IsU16 c words h)

module _ (parse_float : Text → Option ℕ) where
  encode_trimmed-IsU16 :
      (c : Codec) (t : DataType) (s : Text) (regs : List ℕ)
      → encode_trimmed parse_float c t s ≡ ok regs
      → All IsU16 regs
  unfolding encode_trimmed
  encode_trimmed-IsU16 c DataType.uint16 s regs h =
      let (v, _, q) = >>=-eq-ok (parse_uint s 16) _ h in
      sent c (u16 v ∷ []) regs (omega arith) (ground (arith, q))
  encode_trimmed-IsU16 c DataType.int16 s regs h =
      let (v, _, q) = >>=-eq-ok (parse_int s 32) _ h in
      sent c (unsigned 16 v ∷ []) regs (unsigned_16-IsU16 v, tt) (ground (arith, q))
  encode_trimmed-IsU16 c DataType.uint32 s regs h =
      let (v, _, q) = >>=-eq-ok (parse_uint s 32) _ h in
      sent c (split_words v) regs (split_words-IsU16 v) (ground (arith, q))
  encode_trimmed-IsU16 c DataType.int32 s regs h =
      let (v, _, q) = >>=-eq-ok (parse_int s 64) _ h in
      sent c (split_words (unsigned 32 v)) regs (split_words-IsU16 (unsigned 32 v))
        (ground (arith, q))
  encode_trimmed-IsU16 c DataType.float32 s regs h =
      let (v, _, q) = >>=-eq-ok (parse_float_bits parse_float s) _ h in
      sent c (split_words v) regs (split_words-IsU16 v) (ground (arith, q))

register_count_bounds : (t : DataType) → (1 ≤ register_count t) × (register_count t ≤ 2)
register_count_bounds t = ground arith

-- A single register, written and read back.
read-write_single_register :
    (c : Client Peer) (k : Peer) (addr value : ℕ)
    → IsReady c k
    → ((j : ℕ) → IsU16 (k.server.holding j))
    → IsU16 addr
    → IsU16 value
    → (read_holding_registers link addr 1 (write_single_register link addr value c).1).0
      ≡ ok (value ∷ [])
read-write_single_register c k addr value v words ha hv =
    rw
      (
        write_single_register-link c k addr value v ha hv,
        read_holding_registers_lem c' k' addr 1 ready stored (omega arith) (omega arith)
            (omega arith),
      )
      (ground arith)
  where
    k' : Peer
    k' = record k { server = record (k.server) { holding = update k.server.holding addr value } }

    c' : Client Peer
    c' = client_with_server c k (k'.server)

    ready : IsReady c' k'
    ready = record {
      connection = refl;
      idle = record {
        no_inbound = v.idle.no_inbound;
        no_outbound = v.idle.no_outbound;
        opened = v.idle.opened;
        no_drops = v.idle.no_drops;
      };
    }

    stored : (j : ℕ) → IsU16 (update k.server.holding addr value j)
    stored j = ground (arith, words j)

-- What `Write` sends, read back; one register goes by its own function.
read-send_registers :
    (c : Client Peer) (k : Peer) (addr : ℕ) (regs : List ℕ)
    → IsReady c k
    → ((j : ℕ) → IsU16 (k.server.holding j))
    → All IsU16 regs
    → 1 ≤ length regs
    → length regs ≤ 123
    → addr + length regs ≤ table_len
    → ((send_registers link addr regs c).0 ≡ ok tt)
      × ((read_holding_registers link addr (length regs) (send_registers link addr regs c).1).0
          ≡ ok regs)
unfolding send_registers
read-send_registers c k addr [] v words new lo hi range = absurd (omega arith)
read-send_registers c k addr (r ∷ []) v words new lo hi range = (
  ap (λ (x : Result (Unit {0}) × Client Peer). x.0)
      (write_single_register-link c k addr r v (omega arith) new.0),
  read-write_single_register c k addr r v words (omega arith) new.0,
)
read-send_registers c k addr (r ∷ r' ∷ rs) v words new lo hi range = (
  ap (λ (x : Result (Unit {0}) × Client Peer). x.0)
      (write_multiple_registers-link c k addr (r ∷ r' ∷ rs) v new lo hi range),
  read-write_multiple_registers c k addr (r ∷ r' ∷ rs) v words new lo hi range,
)

-- What a read of one value returns.
abbrev pub value_read : Options → Spec → Scalar → List ℕ → Value
value_read opt sp v regs = record {
  address = spec_string sp;
  type_name = data_type_string opt.type;
  value = scalar v;
  quality = good;
  raw = regs;
}

module _ (parse_float : Text → Option ℕ) where
  encode_write_single :
      (opt : Options) (spec literal : Text) (sp : Spec) (regs : List ℕ)
      → parse_spec spec opt.raw_address ≡ ok sp
      → sp.table ≡ Table.holding_register
      → split b',' literal ≡ literal ∷ []
      → encode parse_float (codec_of opt) opt.type (trim_space literal) ≡ ok regs
      → encode_write parse_float opt spec literal
        ≡ ok (record { spec = sp; coils = []; regs = regs })
  unfolding encode_write encode_values encode_parts
  encode_write_single opt spec literal sp regs parsed holding alone encoded =
      rw (parsed, holding, alone, encoded, append-nil regs) refl

  read_one :
      (opt : Options) (spec : Text) (sp : Spec) (v : Scalar) (regs : List ℕ) (c : Client Peer)
      → parse_spec spec opt.raw_address ≡ ok sp
      → sp.table ≡ Table.holding_register
      → sp.count ≡ 0
      → length regs ≡ register_count opt.type
      → decode (codec_of opt) opt.type regs ≡ ok v
      → (read_holding_registers link sp.address (length regs) c).0 ≡ ok regs
      → (read link opt spec c).0 ≡ ok (value_read opt sp v regs)
  unfolding read read_registers register_value
  read_one opt spec sp v regs c parsed holding plain len decoded got =
      rw (parsed, holding, plain, ← len) (ground (arith, len, decoded, got))

  write_one :
      (opt : Options) (spec literal : Text) (sp : Spec) (regs : List ℕ) (c : Client Peer)
      → encode_write parse_float opt spec literal
        ≡ ok (record { spec = sp; coils = []; regs = regs })
      → sp.table ≡ Table.holding_register
      → write link parse_float opt spec literal c ≡ send_registers link sp.address regs c
  unfolding write
  write_one opt spec literal sp regs c encoded holding = rw (encoded, holding) refl

  -- If `parse_float` gives 32-bit patterns, over an idle connection to a server of 16-bit words: for a
  -- holding-register spec with no count, a literal with no comma that its type accepts, and a value
  -- inside the table, `Write` succeeds and the `Read` of the same spec after it returns the value that
  -- the literal denotes, under every pair of orders.
  pub read-write :
      (opt : Options) (spec literal : Text) (sp : Spec) (regs : List ℕ) (c : Client Peer) (k : Peer)
      → Is32Bits parse_float
      → IsReady c k
      → ((j : ℕ) → IsU16 (k.server.holding j))
      → parse_spec spec opt.raw_address ≡ ok sp
      → sp.table ≡ Table.holding_register
      → sp.count ≡ 0
      → split b',' literal ≡ literal ∷ []
      → encode parse_float (codec_of opt) opt.type (trim_space literal) ≡ ok regs
      → sp.address + register_count opt.type ≤ table_len
      → (v : Scalar) × (literal_value parse_float opt.type (trim_space (trim_space literal)) ≡ ok v)
        × ((write link parse_float opt spec literal c).0 ≡ ok tt)
        × ((read link opt spec (write link parse_float opt spec literal c).1).0
            ≡ ok (value_read opt sp v regs))
  unfolding encode
  read-write opt spec literal sp regs c k bits32 v words parsed holding plain alone encoded range =
      let (x, denoted, len, decoded) =
        decode-encode parse_float bits32 (codec_of opt) opt.type (trim_space literal) regs
          encoded in
      let few : (1 ≤ register_count opt.type) × (register_count opt.type ≤ 2) =
        register_count_bounds opt.type in
      let as_words =
        encode_trimmed-IsU16 parse_float (codec_of opt) opt.type (trim_space (trim_space literal))
          regs encoded in
      let (sent_ok, got) =
        read-send_registers c k sp.address regs v words as_words (omega (arith, few, len))
          (omega (arith, few, len)) (omega (arith, len)) in
      let sends =
        write_one opt spec literal sp regs c
          (encode_write_single opt spec literal sp regs parsed holding alone encoded) holding in
      (
        x,
        denoted,
        rw sends sent_ok,
        rw sends (read_one opt spec sp x regs _ parsed holding plain len decoded got),
      )
