-- ===== src/Runs/Devices.antt =====
-- internal/modbus/driver.go over internal/mock at concrete inputs.
use otcat.Base.{
  ℕ, zero, suc, ◌+◌, ◌≡◌, refl, List, [], ◌∷◌, Option, some, none, Bool, true, false, arith, length,
  codes, Text,
}
use otcat.Base.Strings.{trim_space, split, trim_left, is_space, to_lower, lower_char}
use otcat.Base.Numbers.{parse_uint_base0}
use otcat.Errors.{ok, err, too_many_values}
use otcat.Modbus.Address.{Table, Spec, parse_spec, spec_string, resolve_offset}
use otcat.Modbus.Address.RoundTrip.{parse-spec_string}
use otcat.Modbus.Convert.{
  data_type_string, normalize, decode_words, decode, DataType, little_endian, low_word_first,
  Scalar, encode, encode_trimmed, parse_uint, denormalize, order_bytes, order_words, swap_bytes,
  split_words,
}
use otcat.Modbus.Convert.Scalars.{literal_value}
use otcat.Modbus.Client.{Client}
use otcat.Modbus.Driver.Encoding.{
  Options, codec_of, Encoded, parse_bool, parse_bools, parse_bool_list, encode_values, encode_write,
  plan_of, explain_write,
}
use otcat.Modbus.Driver.Session.{register_value, read_registers, read, write}
use otcat.Modbus.Driver.Plans.{Explains, write-explain_write, write_over_limit}
use otcat.Modbus.Driver.RoundTrip.{value_read, read-write}
use otcat.Modbus.Driver.Raw.{words_of, read-raw}
use otcat.Mock.Link.Registers.{read_holding_registers_lem}
use otcat.Protocol.{Value, scalar, good}
use otcat.Mock.Server.{Server}
use otcat.Mock.Connection.{Peer}
use otcat.Mock.Link.{link}
use otcat.Mock.Link.Calls.{IsReady}

abbrev plant : Server
plant = record { coils = λ _. false; discrete = λ _. false; holding = λ _. 0; input = λ _. 7 }

abbrev peer : Peer
peer = record { server = plant; inbound = []; outbound = []; is_open = true; drops = [] }

abbrev client : Client Peer
client = record { addr = codes "plc:502"; unit_id = 1; timeout = 5; conn = some peer; tx_id = 0 }

client-IsReady : IsReady client peer
client-IsReady = record {
  connection = refl;
  idle = record { no_inbound = refl; no_outbound = refl; opened = refl; no_drops = refl };
}

abbrev no_floats : Text → Option ℕ
no_floats s = none

abbrev swapped : Options
swapped = record {
  unit_id = 1;
  timeout = 5;
  type = DataType.uint32;
  byte_order = little_endian;
  word_order = low_word_first;
  raw_address = true;
}

abbrev register_100 : Spec
register_100 = record { table = Table.holding_register; address = 100; count = 0 }

register_100-parses : parse_spec (spec_string register_100) true ≡ ok register_100
unfolding resolve_offset
register_100-parses = parse-spec_string register_100 true (omega arith) (omega arith)

-- 0x010203 over two registers, swapped both ways.
literal-encodes :
    encode no_floats (codec_of swapped) DataType.uint32 (trim_space (codes "0x010203"))
    ≡ ok (770 ∷ 256 ∷ [])
unfolding encode encode_trimmed trim_space trim_left is_space parse_uint parse_uint_base0
    denormalize order_bytes order_words swap_bytes split_words
literal-encodes = refl

read-write_example :
    (v : Scalar) × (literal_value no_floats DataType.uint32
        (trim_space (trim_space (codes "0x010203")))
      ≡ ok v)
    × ((write link no_floats swapped (spec_string register_100) (codes "0x010203") client).0
        ≡ ok tt)
    × ((read link swapped
          (spec_string register_100)
          (write link no_floats swapped (spec_string register_100) (codes "0x010203") client).1).0
        ≡ ok (value_read swapped register_100 v (770 ∷ 256 ∷ [])))
unfolding split
read-write_example =
    read-write no_floats swapped (spec_string register_100) (codes "0x010203") register_100
      (770 ∷ 256 ∷ []) client peer (λ s n e. cc e) client-IsReady (λ j. omega arith)
      register_100-parses refl refl refl literal-encodes (omega arith)

write-explain_write_example :
    Explains link no_floats swapped
      (codes "input:7")
      (codes "1")
      client
      (explain_write no_floats swapped (codes "input:7") (codes "1"))
write-explain_write_example =
    write-explain_write link no_floats swapped (codes "input:7") (codes "1") client

-- `n + 1` coils, each on, and their literal.
abbrev ones : ℕ → Text
ones zero = b'1' ∷ []
ones (suc n) = b'1' ∷ b',' ∷ ones n

abbrev trues : ℕ → List Bool
trues zero = true ∷ []
trues (suc n) = true ∷ trues n

length-trues : (n : ℕ) → length (trues n) ≡ n + 1
length-trues zero = refl
length-trues (suc n) = omega (arith, length-trues n)

ones-parses : (n : ℕ) → parse_bools (split b',' (ones n)) ≡ ok (trues n)
unfolding parse_bools split parse_bool to_lower lower_char trim_space trim_left is_space
ones-parses zero = refl
ones-parses (suc n) = rw (ones-parses n) refl

abbrev coil_0 : Spec
coil_0 = record { table = Table.coil; address = 0; count = 0 }

abbrev many_coils : Encoded
many_coils = record { spec = coil_0; coils = trues 1968; regs = [] }

many_coils-encodes : encode_write no_floats swapped (spec_string coil_0) (ones 1968) ≡ ok many_coils
unfolding encode_write encode_values parse_bool_list resolve_offset
many_coils-encodes =
    rw (parse-spec_string coil_0 true (omega arith) (omega arith), ones-parses 1968) refl

write_over_limit_example :
    (explain_write no_floats swapped (spec_string coil_0) (ones 1968)
      ≡ ok (plan_of swapped (ones 1968) many_coils))
    × (write link no_floats swapped (spec_string coil_0) (ones 1968) client
        ≡ (err too_many_values, client))
write_over_limit_example =
    write_over_limit link no_floats swapped (spec_string coil_0) (ones 1968) client many_coils
      many_coils-encodes refl (omega (arith, length-trues 1968))

abbrev zero_value : Value
zero_value = record {
  address = spec_string register_100;
  type_name = codes "uint32";
  value = scalar (Scalar.uint32 0);
  quality = good;
  raw = 0 ∷ 0 ∷ [];
}

register_100-reads :
    read link swapped (spec_string register_100) client
    ≡ (ok zero_value, record client { tx_id = 1 })
unfolding read read_registers register_value decode decode_words normalize order_bytes order_words
    swap_bytes data_type_string
register_100-reads =
    rw
      (
        register_100-parses,
        read_holding_registers_lem client peer 100 2 client-IsReady (λ j. omega arith) (omega arith)
            (omega arith) (omega arith),
      )
      refl

read-raw_example :
    (spec_string register_100 ≡ spec_string register_100)
    × (good ≡ good)
    × (words_of link swapped register_100 client ≡ (ok (0 ∷ 0 ∷ []), record client { tx_id = 1 }))
read-raw_example =
    read-raw link swapped (spec_string register_100) register_100 zero_value client
      (record client { tx_id = 1 }) register_100-parses refl register_100-reads
