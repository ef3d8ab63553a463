-- ===== src/Runs/Values.antt =====
-- internal/modbus/convert.go and internal/modbus/address.go at concrete inputs.
use otcat.Modbus.Address.Bands.{InBand, reachable_iff}
use otcat.Base.{
  ◌⊎◌, ◌≤◌, ◌↔◌, ℕ, ◌≡◌, refl, List, [], ◌∷◌, Option, none, false, arith, length, codes, Text,
}
use otcat.Base.Strings
use otcat.Base.Numbers.{parse_int_base0, parse_uint_base0}
use otcat.Errors.{ok}
use otcat.Modbus.Address.{Table, resolve_offset, parse_spec, spec_string}
use otcat.Modbus.Address.RoundTrip.{parse-spec_string}
use otcat.Modbus.Convert.{
  Codec, little_endian, low_word_first, DataType, Scalar, encode, decode, denormalize, unsigned,
  out_of_signed, encode_trimmed, parse_int, order_bytes, order_words, swap_bytes,
}
use otcat.Modbus.Convert.Scalars.{literal_value, decode-encode}
use otcat.Base.Strings.{trim_space}

abbrev swapped : Codec
swapped = record { byte_order = little_endian; word_order = low_word_first }

abbrev no_floats : Text → Option ℕ
no_floats s = none

parse-spec_string_example :
    parse_spec
      (spec_string (record { table = Table.holding_register; address = 40101; count = 2 }))
      false
    ≡ ok (record {
      table = Table.holding_register;
      address = resolve_offset Table.holding_register false 40101;
      count = 2;
    })
parse-spec_string_example =
    parse-spec_string (record { table = Table.holding_register; address = 40101; count = 2 }) false
      (omega arith) (omega arith)

abbrev minus_two : List ℕ
minus_two = 65279 ∷ []

-- -2 in one register, its bytes swapped.
minus_two-encodes : encode no_floats swapped DataType.int16 (codes "-2") ≡ ok (65279 ∷ [])
unfolding encode encode_trimmed trim_space Strings.trim_left Strings.is_space parse_int
    parse_int_base0 out_of_signed unsigned denormalize order_bytes order_words swap_bytes
    parse_uint_base0
minus_two-encodes = refl

decode-encode_example :
    (v : Scalar) × (literal_value no_floats DataType.int16 (trim_space (codes "-2")) ≡ ok v)
    × (length minus_two ≡ 1)
    × (decode swapped DataType.int16 (65279 ∷ []) ≡ ok v)
decode-encode_example =
    decode-encode no_floats (λ s n e. cc e) swapped DataType.int16 (codes "-2") (65279 ∷ [])
      minus_two-encodes

reachable_iff_example :
    ((n : ℕ) × (resolve_offset Table.coil false n ≡ 9999))
    ↔ ((9999 ≤ 9998) ⊎ (¬ (InBand Table.coil 9999)))
reachable_iff_example = reachable_iff Table.coil 9999
