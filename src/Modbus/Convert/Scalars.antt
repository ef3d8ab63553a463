-- ===== src/Modbus/Convert/Scalars.antt =====
-- `Codec.Encode` against `Codec.Decode`, and the two-complement conversions.
use otcat.Base.{
  ℕ, ◌%◌, ◌^◌, ◌<◌, ◌≡◌, refl, ap, ◌∙◌, false, Option, some, List, [], ◌∷◌, arith, length, All,
  Text,
}
use otcat.Base.Bytes.{IsU16, u16}
use otcat.Base.Int.{ℤ, pos, negsuc}
use otcat.Base.Strings.{trim_space}
use otcat.Base.Numbers.{parse_uint_base0-lt}
use otcat.Errors.{
  Result, ok, ◌>>=◌, ◌>>◌, refuse_if, >>=-eq-ok, invalid_input, literal_out_of_range,
}
use otcat.Modbus.Convert.{
  Codec, DataType, Scalar, register_count, denormalize, decode_words, decode, parse_uint, parse_int,
  parse_float_bits, encode_trimmed, encode, signed, unsigned, out_of_signed, split_words,
}
use otcat.Modbus.Convert.Orders.{
  normalize-denormalize, length-denormalize, join-split_words, split_words-IsU16,
}

-- A number in the int16 range survives the conversion to a word and back.
pub signed_16-unsigned : (v : ℤ) → out_of_signed 16 v ≡ false → signed 16 (unsigned 16 v) ≡ v
unfolding signed unsigned out_of_signed
signed_16-unsigned (pos n) h = ground arith
signed_16-unsigned (negsuc n) h = ground arith

-- A number in the int32 range survives the conversion to a 32-bit word and back.
pub signed_32-unsigned : (v : ℤ) → out_of_signed 32 v ≡ false → signed 32 (unsigned 32 v) ≡ v
unfolding signed unsigned out_of_signed
signed_32-unsigned (pos n) h = ground arith
signed_32-unsigned (negsuc n) h = ground arith

unsigned_32-lt : (v : ℤ) → unsigned 32 v < 2 ^ 32
unfolding unsigned
unsigned_32-lt (pos n) = omega arith
unsigned_32-lt (negsuc n) = omega arith

unsigned_16-lt : (v : ℤ) → unsigned 16 v < 65536
unfolding unsigned
unsigned_16-lt (pos n) = omega arith
unsigned_16-lt (negsuc n) = omega arith

-- Decoding what was prepared for the wire gives the scalar of the words.
decode-denormalize :
    (c : Codec) (t : DataType) (regs : List ℕ)
    → All IsU16 regs
    → length regs ≡ register_count t
    → decode c t (denormalize c regs) ≡ ok (decode_words t regs)
unfolding decode
decode-denormalize c t regs h len =
    rw (length-denormalize c regs, normalize-denormalize c regs h) (ground (arith, len))

module _ (parse_float : Text → Option ℕ) where
  -- The value that a literal denotes at a type, with no word or order in sight.
  pub literal_value : DataType → Text → Result Scalar
  literal_value DataType.uint16 s = do v ← parse_uint s 16; ok (Scalar.uint16 v)
  literal_value DataType.int16 s = do
    v ← parse_int s 32
    refuse_if (out_of_signed 16 v) (invalid_input literal_out_of_range)
    ok (Scalar.int16 v)
  literal_value DataType.uint32 s = do v ← parse_uint s 32; ok (Scalar.uint32 v)
  literal_value DataType.int32 s = do
    v ← parse_int s 64
    refuse_if (out_of_signed 32 v) (invalid_input literal_out_of_range)
    ok (Scalar.int32 v)
  literal_value DataType.float32 s = do v ← parse_float_bits parse_float s; ok (Scalar.float32 v)

-- `Float32bits` gives 32 bits.
abbrev pub Is32Bits : (Text → Option ℕ) → Type 0
Is32Bits parse_float = (s : Text) (bits : ℕ) → parse_float s ≡ some bits → bits < 2 ^ 32

parse_uint-lt : (s : Text) (bits v : ℕ) → parse_uint s bits ≡ ok v → v < 2 ^ bits
unfolding parse_uint
parse_uint-lt s bits v h = parse_uint_base0-lt s bits v (ground arith)

length-split_words : (v : ℕ) → length (split_words v) ≡ 2
unfolding split_words
length-split_words v = refl

-- The words `words` are sent as `regs`, and stand for `v`.
sent :
    (c : Codec) (t : DataType) (words regs : List ℕ) (v : Scalar)
    → All IsU16 words
    → length words ≡ register_count t
    → decode_words t words ≡ v
    → denormalize c words ≡ regs
    → (length regs ≡ register_count t) × (decode c t regs ≡ ok v)
sent c t words regs v h len e same =
    rw (← same, ← e) (length-denormalize c words ∙ len, decode-denormalize c t words h len)

module _ (parse_float : Text → Option ℕ) (bits32 : Is32Bits parse_float) where
  abbrev DecodesTo : Codec → DataType → Text → List ℕ → Type 0
  DecodesTo c t s regs =
      (v : Scalar) × (literal_value parse_float t s ≡ ok v)
      × (length regs ≡ register_count t)
      × (decode c t regs ≡ ok v)

  float_bits-lt : (s : Text) (v : ℕ) → parse_float_bits parse_float s ≡ ok v → v < 2 ^ 32
  unfolding parse_float_bits
  float_bits-lt s v h = ground (arith, bits32 s v)

  decode-encode_trimmed :
      (c : Codec) (t : DataType) (s : Text) (regs : List ℕ)
      → encode_trimmed parse_float c t s ≡ ok regs
      → DecodesTo c t s regs
  unfolding encode_trimmed literal_value decode_words
  decode-encode_trimmed c DataType.uint16 s regs h =
      let (v, e, q) = >>=-eq-ok (parse_uint s 16) _ h in
      let lt : v < 2 ^ 16 = parse_uint-lt s 16 v e in
      let word : v % 65536 ≡ v = omega arith in
      let (len, back) =
        sent c DataType.uint16 (u16 v ∷ []) regs (Scalar.uint16 v) (omega arith) refl
          (ap Scalar.uint16 word) (cc) in
      (Scalar.uint16 v, rw e refl, len, back)
  decode-encode_trimmed c DataType.int16 s regs h =
      let (v, e, q) = >>=-eq-ok (parse_int s 32) _ h in
      let (t, fits, q') = >>=-eq-ok (refuse_if (out_of_signed 16 v) _) _ q in
      let inside : out_of_signed 16 v ≡ false = ground arith in
      let (len, back) =
        sent c DataType.int16 (unsigned 16 v ∷ []) regs (Scalar.int16 v) (unsigned_16-lt v, tt) refl
          (ap Scalar.int16 (signed_16-unsigned v inside)) (cc) in
      (Scalar.int16 v, rw (e, inside) refl, len, back)
  decode-encode_trimmed c DataType.uint32 s regs h =
      let (v, e, q) = >>=-eq-ok (parse_uint s 32) _ h in
      let (len, back) =
        sent c DataType.uint32 (split_words v) regs (Scalar.uint32 v) (split_words-IsU16 v)
          (length-split_words v) (ap Scalar.uint32 (join-split_words v (parse_uint-lt s 32 v e)))
          (cc) in
      (Scalar.uint32 v, rw e refl, len, back)
  decode-encode_trimmed c DataType.int32 s regs h =
      let (v, e, q) = >>=-eq-ok (parse_int s 64) _ h in
      let (t, fits, q') = >>=-eq-ok (refuse_if (out_of_signed 32 v) _) _ q in
      let inside : out_of_signed 32 v ≡ false = ground arith in
      let (len, back) =
        sent c DataType.int32 (split_words (unsigned 32 v)) regs (Scalar.int32 v)
          (split_words-IsU16 (unsigned 32 v)) (length-split_words (unsigned 32 v))
          (ap Scalar.int32 (
            rw (join-split_words (unsigned 32 v) (unsigned_32-lt v)) (signed_32-unsigned v inside)))
          (cc) in
      (Scalar.int32 v, rw (e, inside) refl, len, back)
  decode-encode_trimmed c DataType.float32 s regs h =
      let (v, e, q) = >>=-eq-ok (parse_float_bits parse_float s) _ h in
      let (len, back) =
        sent c DataType.float32 (split_words v) regs (Scalar.float32 v) (split_words-IsU16 v)
          (length-split_words v) (ap Scalar.float32 (join-split_words v (float_bits-lt s v e)))
          (cc) in
      (Scalar.float32 v, rw e refl, len, back)

  -- If `parse_float` gives 32-bit patterns: every literal that `Encode` accepts becomes as many
  -- registers as its type has, and they decode to the value that the literal denotes, under every pair
  -- of orders.
  pub decode-encode :
      (c : Codec) (t : DataType) (literal : Text) (regs : List ℕ)
      → encode parse_float c t literal ≡ ok regs
      → (v : Scalar) × (literal_value parse_float t (trim_space literal) ≡ ok v)
        × (length regs ≡ register_count t)
        × (decode c t regs ≡ ok v)
  unfolding encode
  decode-encode c t literal regs h = decode-encode_trimmed c t (trim_space literal) regs h
