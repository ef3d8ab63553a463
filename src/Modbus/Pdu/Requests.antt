-- ===== src/Modbus/Pdu/Requests.antt =====
-- What the request encoders of internal/modbus/pdu.go write: the fields at their offsets, the
-- length, and the PDU budget.
use otcat.Base.{
  ℕ, zero, suc, ◌+◌, ◌*◌, ◌/◌, ◌≤◌, ◌<◌, ◌≡◌, ◌∙◌, ◌⊎◌, inl, inr, Bool, true, false, List, [], ◌∷◌,
  arith, if◌then◌else◌, length, get_or, All,
}
use otcat.Base.Bytes.{
  Bytes, IsByte, IsU16, make, at, u8, u16, put_uint16, uint16, put_words, at-put_words_lt,
  length-put_words, uint16-put_words, length-make, make-IsByte,
}
use otcat.Base.Bits.{
  put_bits, bit_at, at-put_bits_lt, length-put_bits, bit_at-put_bits, bit_at-clear,
}
use native.Mathlib.Decide.{ℕ_discrete, dec_lt}
use otcat.Errors.{ok, err, nothing_to_write, too_many_values}
use otcat.Modbus.Mbap.{max_pdu}
use otcat.Modbus.Pdu.Header.{
  put_header-HasHeader, put_header-IsByte, length-put_header, HasHeader-transfer,
  at-put_header_clear, put_header, HasHeader,
}
use otcat.Modbus.Pdu.{
  encode_read_request, encode_write_single_coil, encode_write_single_register,
  encode_write_multiple_registers, encode_write_multiple_coils, func_write_multiple_registers,
  func_write_multiple_coils, func_write_single_coil, func_write_single_register, coil_on, coil_off,
  max_write_registers, max_write_bits,
}

-- The layout of a write-multiple-registers request, as the specification gives it.
pub record IsWriteRegisters (address : ℕ) (values : List ℕ) (pdu : Bytes) : Type 0 where
  pub header :
      HasHeader func_write_multiple_registers address (length values) (length values * 2) pdu
  pub len : length pdu ≡ 6 + length values * 2
  pub words : (i : ℕ) → i < length values → uint16 pdu (6 + 2 * i) ≡ get_or values i 0

pub record IsWriteCoils (address : ℕ) (values : List Bool) (pdu : Bytes) : Type 0 where
  pub header :
      HasHeader func_write_multiple_coils address (length values) ((length values + 7) / 8) pdu
  pub len : length pdu ≡ 6 + (length values + 7) / 8
  pub bits : (i : ℕ) → i < length values → bit_at pdu 6 i ≡ get_or values i false

pub get_or-IsU16 : (values : List ℕ) (i : ℕ) → All IsU16 values → IsU16 (get_or values i 0)
get_or-IsU16 [] i h = omega arith
get_or-IsU16 (v ∷ vs) zero h = h.0
get_or-IsU16 (v ∷ vs) (suc i) h = get_or-IsU16 vs i h.1

-- The request that the encoder writes where its two guards pass.
pub registers_request : ℕ → List ℕ → Bytes
registers_request address values =
    let n = length values in
    put_words (λ i. get_or values i 0) 6 n 0
      (put_header func_write_multiple_registers address (u16 n) (u8 (n * 2)) (make (6 + n * 2)))

pub coils_request : ℕ → List Bool → Bytes
coils_request address values =
    let n = length values in
    put_bits (λ i. get_or values i false) 6 n 0
      (put_header func_write_multiple_coils address (u16 n) (u8 ((n + 7) / 8))
        (make (6 + (n + 7) / 8)))

pub registers_request-layout :
    (address : ℕ) (values : List ℕ)
    → IsU16 address
    → All IsU16 values
    → length values ≤ max_write_registers
    → IsWriteRegisters address values (registers_request address values)
unfolding registers_request
registers_request-layout address values ha hv h = record {
  header =
      HasHeader-transfer _ _ _ _ start _ (λ j lt. at-put_words_lt _ 6 n 0 j start (omega arith))
        fields;
  len = length-put_words _ 6 n 0 start ∙ size;
  words = λ i lt.
      uint16-put_words _ 6 n 0 i start (get_or-IsU16 values i hv) (omega (arith, size))
        (omega arith) (omega arith);
}
  where
    n : ℕ
    n = length values

    fresh : Bytes
    fresh = make (6 + n * 2)

    start : Bytes
    start = put_header func_write_multiple_registers address (u16 n) (u8 (n * 2)) fresh

    size : length start ≡ 6 + n * 2
    size = length-put_header _ _ _ _ fresh ∙ length-make _

    fields : HasHeader func_write_multiple_registers address n (n * 2) start
    fields =
        put_header-HasHeader _ _ _ _ _ _ fresh ha (omega arith)
          (omega (arith, length-make (6 + n * 2))) (omega arith) (omega arith)

pub coils_request-layout :
    (address : ℕ) (values : List Bool)
    → IsU16 address
    → length values ≤ max_write_bits
    → IsWriteCoils address values (coils_request address values)
unfolding coils_request
coils_request-layout address values ha h = record {
  header =
      HasHeader-transfer _ _ _ _ start _ (λ j lt. at-put_bits_lt _ 6 n 0 j start (omega arith))
        fields;
  len = length-put_bits _ 6 n 0 start ∙ size;
  bits = λ i lt.
      bit_at-put_bits _ 6 n 0 i start bytes (omega (arith, size))
        (bit_at-clear start 6 i (at-put_header_clear _ _ _ _ _ (6 + i / 8) (omega arith)))
        (omega arith) (omega arith);
}
  where
    n : ℕ
    n = length values

    fresh : Bytes
    fresh = make (6 + (n + 7) / 8)

    start : Bytes
    start = put_header func_write_multiple_coils address (u16 n) (u8 ((n + 7) / 8)) fresh

    size : length start ≡ 6 + (n + 7) / 8
    size = length-put_header _ _ _ _ fresh ∙ length-make _

    fields : HasHeader func_write_multiple_coils address n ((n + 7) / 8) start
    fields =
        put_header-HasHeader _ _ _ _ _ _ fresh ha (omega arith)
          (omega (arith, length-make (6 + (n + 7) / 8))) (omega arith) (omega arith)

    bytes : All IsByte start
    bytes = put_header-IsByte _ _ _ _ fresh (omega arith) (omega arith) (make-IsByte _)

pub registers_accepted :
    (address : ℕ) (values : List ℕ)
    → 1 ≤ length values
    → length values ≤ max_write_registers
    → encode_write_multiple_registers address values ≡ ok (registers_request address values)
unfolding encode_write_multiple_registers registers_request
registers_accepted address values lo hi = ground arith

pub coils_accepted :
    (address : ℕ) (values : List Bool)
    → 1 ≤ length values
    → length values ≤ max_write_bits
    → encode_write_multiple_coils address values ≡ ok (coils_request address values)
unfolding encode_write_multiple_coils coils_request
coils_accepted address values lo hi = ground arith

-- For a 16-bit address and 16-bit words: the encoder refuses an empty list and one of more than 123
-- words, each with its error; otherwise it writes the request whose header and words are those of the
-- specification, of at most 253 bytes.
pub encode_write_multiple_registers-layout :
    (address : ℕ) (values : List ℕ)
    → IsU16 address
    → All IsU16 values
    → ((length values ≡ 0)
        × (encode_write_multiple_registers address values ≡ err nothing_to_write))
      ⊎ ((max_write_registers < length values)
          × (encode_write_multiple_registers address values ≡ err too_many_values))
      ⊎ ((pdu : Bytes) × (1 ≤ length values)
          × (length values ≤ max_write_registers)
          × (encode_write_multiple_registers address values ≡ ok pdu)
          × IsWriteRegisters address values pdu
          × (length pdu ≤ max_pdu))
encode_write_multiple_registers-layout address values ha hv = elim (ℕ_discrete (length values) 0) [
  | yes e ↦ inl (e, unfold encode_write_multiple_registers in ground arith)
  | no ne ↦ elim (dec_lt max_write_registers (length values)) [
    | yes big ↦ inr (inl (big, unfold encode_write_multiple_registers in ground arith))
    | no fits ↦ inr (
        inr (
          registers_request address values,
          omega arith,
          omega arith,
          registers_accepted address values (omega arith) (omega arith),
          layout fits,
          omega (arith, (layout fits).len),
        ))
  ]
]
  where
    layout :
        ¬ (max_write_registers < length values)
        → IsWriteRegisters address values (registers_request address values)
    layout fits = registers_request-layout address values ha hv (omega arith)

-- For a 16-bit address: the encoder refuses an empty list and one of more than 1968 coils, each with
-- its error; otherwise it writes the request whose header and packed bits are those of the
-- specification, of at most 253 bytes.
pub encode_write_multiple_coils-layout :
    (address : ℕ) (values : List Bool)
    → IsU16 address
    → ((length values ≡ 0) × (encode_write_multiple_coils address values ≡ err nothing_to_write))
      ⊎ ((max_write_bits < length values)
          × (encode_write_multiple_coils address values ≡ err too_many_values))
      ⊎ ((pdu : Bytes) × (1 ≤ length values)
          × (length values ≤ max_write_bits)
          × (encode_write_multiple_coils address values ≡ ok pdu)
          × IsWriteCoils address values pdu
          × (length pdu ≤ max_pdu))
encode_write_multiple_coils-layout address values ha = elim (ℕ_discrete (length values) 0) [
  | yes e ↦ inl (e, unfold encode_write_multiple_coils in ground arith)
  | no ne ↦ elim (dec_lt max_write_bits (length values)) [
    | yes big ↦ inr (inl (big, unfold encode_write_multiple_coils in ground arith))
    | no fits ↦ inr (
        inr (
          coils_request address values,
          omega arith,
          omega arith,
          coils_accepted address values (omega arith) (omega arith),
          layout fits,
          omega (arith, (layout fits).len),
        ))
  ]
]
  where
    layout :
        ¬ (max_write_bits < length values)
        → IsWriteCoils address values (coils_request address values)
    layout fits = coils_request-layout address values ha (omega arith)

-- The four fixed-size requests and the two echoes: five bytes with two words.
pub record IsFive (fc first second : ℕ) (pdu : Bytes) : Type 0 where
  pub code : at pdu 0 ≡ fc
  pub first_word : uint16 pdu 1 ≡ first
  pub second_word : uint16 pdu 3 ≡ second
  pub len : length pdu ≡ 5

pub encode_read_request-IsFive :
    (fc address quantity : ℕ)
    → IsU16 address
    → IsU16 quantity
    → IsFive fc address quantity (encode_read_request fc address quantity)
unfolding encode_read_request put_uint16 uint16
encode_read_request-IsFive fc address quantity ha hq = omega arith

pub encode_write_single_coil-IsFive :
    (address : ℕ) (on : Bool)
    → IsU16 address
    → IsFive func_write_single_coil address
        (if on then coil_on else coil_off)
        (encode_write_single_coil address on)
unfolding encode_write_single_coil put_uint16 uint16
encode_write_single_coil-IsFive address true ha = omega arith
encode_write_single_coil-IsFive address false ha = omega arith

pub encode_write_single_register-IsFive :
    (address value : ℕ)
    → IsU16 address
    → IsU16 value
    → IsFive func_write_single_register address value (encode_write_single_register address value)
unfolding encode_write_single_register put_uint16 uint16
encode_write_single_register-IsFive address value ha hv = omega arith
