-- ===== src/Modbus/Convert.antt =====
-- internal/modbus/convert.go: byte and word order, and the codec between registers and scalars.
-- There are no floats here: a float32 is its 32 bits, and `strconv.ParseFloat` with
-- `math.Float32bits` is the parameter `parse_float`.
pub mod Orders
pub mod Scalars
use otcat.Base.{
  ℕ, ◌+◌, ◌-◌, ◌*◌, ◌/◌, ◌%◌, ◌^◌, Bool, true, false, not, ◌&&◌, ◌||◌, Option, some, none, List, [],
  ◌∷◌, map, ltb, leb, ◌==◌, if◌then◌else◌, length, get_or, bit_or, Text, codes,
}
use otcat.Base.Bytes.{u16}
use otcat.Base.Int.{ℤ, pos, negsuc}
use otcat.Base.Strings.{trim_space, to_lower, one_of}
use otcat.Base.Numbers.{parse_uint_base0, parse_int_base0}
use otcat.Errors.{
  Result, ok, err, ◌>>=◌, ◌>>◌, refuse_if, invalid_input, unknown_type, unknown_byte_order,
  unknown_word_order, wrong_register_count, bad_literal, literal_out_of_range,
}

pub data ByteOrder : Type 0 where
  big_endian little_endian : ByteOrder

pub data WordOrder : Type 0 where
  high_word_first low_word_first : WordOrder

pub data DataType : Type 0 where
  uint16 int16 uint32 int32 float32 : DataType

abbrev pub register_count : DataType → ℕ
register_count DataType.uint16 = 1
register_count DataType.int16 = 1
register_count DataType.uint32 = 2
register_count DataType.int32 = 2
register_count DataType.float32 = 2

unfoldable pub data_type_string : DataType → Text
data_type_string DataType.uint16 = codes "uint16"
data_type_string DataType.int16 = codes "int16"
data_type_string DataType.uint32 = codes "uint32"
data_type_string DataType.int32 = codes "int32"
data_type_string DataType.float32 = codes "float32"

unfoldable pub parse_data_type : Text → Result DataType
parse_data_type s =
    let t = to_lower (trim_space s) in
    if one_of t (codes "uint16" ∷ codes "u16" ∷ codes "word" ∷ [])
    then ok DataType.uint16
    else if one_of t (codes "int16" ∷ codes "i16" ∷ codes "short" ∷ [])
    then ok DataType.int16
    else if one_of t (codes "uint32" ∷ codes "u32" ∷ codes "dword" ∷ [])
    then ok DataType.uint32
    else if one_of t (codes "int32" ∷ codes "i32" ∷ codes "dint" ∷ codes "long" ∷ [])
    then ok DataType.int32
    else if one_of t (codes "float32" ∷ codes "f32" ∷ codes "float" ∷ codes "real" ∷ [])
    then ok DataType.float32
    else err (invalid_input unknown_type)

unfoldable pub parse_byte_order : Text → Result ByteOrder
parse_byte_order s =
    let t = to_lower (trim_space s) in
    if one_of t (codes "" ∷ codes "big" ∷ [])
    then ok big_endian
    else if one_of t (codes "little" ∷ [])
    then ok little_endian
    else err (invalid_input unknown_byte_order)

unfoldable pub parse_word_order : Text → Result WordOrder
parse_word_order s =
    let t = to_lower (trim_space s) in
    if one_of t (codes "" ∷ codes "high" ∷ codes "high-first" ∷ [])
    then ok high_word_first
    else if one_of t (codes "low" ∷ codes "low-first" ∷ codes "swap" ∷ codes "swapped" ∷ [])
    then ok low_word_first
    else err (invalid_input unknown_word_order)

-- `(r << 8) | (r >> 8)` on a uint16.
unfoldable pub swap_bytes : ℕ → ℕ
swap_bytes r = bit_or (r * 2 ^ 8 % 65536) (r / 2 ^ 8)

pub record Codec : Type 0 where
  pub byte_order : ByteOrder
  pub word_order : WordOrder

-- The two passes over a copy of the registers.
unfoldable pub order_bytes : ByteOrder → List ℕ → List ℕ
order_bytes big_endian out = out
order_bytes little_endian out = map swap_bytes out

unfoldable pub order_words : WordOrder → List ℕ → List ℕ
order_words low_word_first (a ∷ b ∷ []) = b ∷ a ∷ []
order_words _ out = out

unfoldable pub normalize : Codec → List ℕ → List ℕ
unfolding order_bytes order_words
normalize c regs = order_words c.word_order (order_bytes c.byte_order regs)

unfoldable pub denormalize : Codec → List ℕ → List ℕ
unfolding order_bytes order_words
denormalize c regs = order_bytes c.byte_order (order_words c.word_order regs)

-- The Go scalar that a value holds: an `interface{}` of these types.
pub data Scalar : Type 0 where
  uint16 : ℕ → Scalar
  int16 : ℤ → Scalar
  uint32 : ℕ → Scalar
  int32 : ℤ → Scalar
  float32 : (bits : ℕ) → Scalar

-- The conversions between a word of `bits` bits and the signed number of that width.
unfoldable pub signed : ℕ → ℕ → ℤ
signed bits w = if ltb w (2 ^ (bits - 1)) then pos w else negsuc (2 ^ bits - 1 - w)

unfoldable pub unsigned : ℕ → ℤ → ℕ
unsigned bits (pos n) = n % 2 ^ bits
unsigned bits (negsuc n) = 2 ^ bits - 1 - n % 2 ^ bits

-- `uint32(r[0])<<16 | uint32(r[1])`
unfoldable pub join_words : List ℕ → ℕ
join_words r = bit_or (get_or r 0 0 * 2 ^ 16) (get_or r 1 0)

unfoldable pub decode_words : DataType → List ℕ → Scalar
unfolding signed join_words
decode_words DataType.uint16 r = Scalar.uint16 (get_or r 0 0)
decode_words DataType.int16 r = Scalar.int16 (signed 16 (get_or r 0 0))
decode_words DataType.uint32 r = Scalar.uint32 (join_words r)
decode_words DataType.int32 r = Scalar.int32 (signed 32 (join_words r))
decode_words DataType.float32 r = Scalar.float32 (join_words r)

unfoldable pub decode : Codec → DataType → List ℕ → Result Scalar
decode c t regs = do
  refuse_if (not (length regs == register_count t)) (invalid_input wrong_register_count)
  ok (decode_words t (normalize c regs))

unfoldable pub parse_uint : Text → ℕ → Result ℕ
parse_uint s bits = elim (parse_uint_base0 s bits) [
  | none ↦ err (invalid_input bad_literal)
  | some v ↦ ok v
]

-- `strconv.ParseInt(literal, 0, bits)` as an error of the program.
unfoldable pub parse_int : Text → ℕ → Result ℤ
parse_int s bits = elim (parse_int_base0 s bits) [
  | none ↦ err (invalid_input bad_literal)
  | some v ↦ ok v
]

-- `v < math.MinIntN || v > math.MaxIntN`
unfoldable pub out_of_signed : ℕ → ℤ → Bool
out_of_signed bits (pos n) = leb (2 ^ (bits - 1)) n
out_of_signed bits (negsuc n) = leb (2 ^ (bits - 1)) n

-- `[]uint16{uint16(v >> 16), uint16(v)}`
unfoldable pub split_words : ℕ → List ℕ
split_words v = u16 (v / 2 ^ 16) ∷ u16 v ∷ []

module _ (parse_float : Text → Option ℕ) where
  unfoldable pub parse_float_bits : Text → Result ℕ
  parse_float_bits s = elim (parse_float s) [
    | none ↦ err (invalid_input bad_literal)
    | some bits ↦ ok bits
  ]

  unfoldable pub encode_trimmed : Codec → DataType → Text → Result (List ℕ)
  encode_trimmed c DataType.uint16 literal = do
    v ← parse_uint literal 16
    ok (denormalize c (u16 v ∷ []))
  encode_trimmed c DataType.int16 literal = do
    v ← parse_int literal 32
    refuse_if (out_of_signed 16 v) (invalid_input literal_out_of_range)
    ok (denormalize c (unsigned 16 v ∷ []))
  encode_trimmed c DataType.uint32 literal = do
    v ← parse_uint literal 32
    ok (denormalize c (split_words v))
  encode_trimmed c DataType.int32 literal = do
    v ← parse_int literal 64
    refuse_if (out_of_signed 32 v) (invalid_input literal_out_of_range)
    ok (denormalize c (split_words (unsigned 32 v)))
  encode_trimmed c DataType.float32 literal = do
    bits ← parse_float_bits literal
    ok (denormalize c (split_words bits))

  unfoldable pub encode : Codec → DataType → Text → Result (List ℕ)
  encode c t literal = encode_trimmed c t (trim_space literal)
