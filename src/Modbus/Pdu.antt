-- ===== src/Modbus/Pdu.antt =====
-- internal/modbus/pdu.go and limits.go: the requests of the eight function codes and the decoders
-- of their responses. A byte slice is a list of numbers; a loop that fills a slice by index is
-- `put_words` or `put_bits` of Base/Bytes and Base/Bits.
pub mod Header
pub mod Requests
pub mod Responses
use otcat.Base.{
  ℕ, ◌+◌, ◌*◌, ◌/◌, ◌%◌, Bool, true, false, not, ◌&&◌, Option, some, none, List, ltb, leb, ◌==◌,
  if◌then◌else◌, length, set, get_or, tabulate, bit_and,
}
use otcat.Base.Bytes.{Byte, Bytes, make, at, u8, u16, put_uint16, uint16, put_words}
use otcat.Base.Bits.{put_bits, bit_at}
use otcat.Errors.{
  Result, ok, err, ◌>>=◌, ◌>>◌, refuse_if, nothing_to_write, too_many_values, short_response,
  byte_count_mismatch, truncated_response, echo_address_mismatch, echo_value_mismatch,
}

abbrev pub max_read_registers : ℕ
max_read_registers = 125

abbrev pub max_read_bits : ℕ
max_read_bits = 2000

abbrev pub max_write_registers : ℕ
max_write_registers = 123

abbrev pub max_write_bits : ℕ
max_write_bits = 1968

-- The function codes are named for what they do.
abbrev pub func_read_coils : Byte
func_read_coils = 0x01

abbrev pub func_read_discrete_inputs : Byte
func_read_discrete_inputs = 0x02

abbrev pub func_read_holding_registers : Byte
func_read_holding_registers = 0x03

abbrev pub func_read_input_registers : Byte
func_read_input_registers = 0x04

abbrev pub func_write_single_coil : Byte
func_write_single_coil = 0x05

abbrev pub func_write_single_register : Byte
func_write_single_register = 0x06

abbrev pub func_write_multiple_coils : Byte
func_write_multiple_coils = 0x0F

abbrev pub func_write_multiple_registers : Byte
func_write_multiple_registers = 0x10

abbrev pub exception_bit : Byte
exception_bit = 0x80

abbrev pub coil_on : ℕ
coil_on = 0xFF00

abbrev pub coil_off : ℕ
coil_off = 0x0000

unfoldable pub encode_read_request : Byte → ℕ → ℕ → Bytes
encode_read_request fc address quantity =
    let pdu = set (make 5) 0 fc in let pdu = put_uint16 pdu 1 address in put_uint16 pdu 3 quantity

unfoldable pub encode_write_single_coil : ℕ → Bool → Bytes
encode_write_single_coil address on =
    let pdu = set (make 5) 0 func_write_single_coil in
    let pdu = put_uint16 pdu 1 address in
    let v : ℕ = if on then coil_on else coil_off in put_uint16 pdu 3 v

unfoldable pub encode_write_single_register : ℕ → ℕ → Bytes
encode_write_single_register address value =
    let pdu = set (make 5) 0 func_write_single_register in
    let pdu = put_uint16 pdu 1 address in put_uint16 pdu 3 value

unfoldable pub encode_write_multiple_registers : ℕ → List ℕ → Result Bytes
encode_write_multiple_registers address values = do
  let n = length values
  refuse_if (n == 0) nothing_to_write
  refuse_if (ltb max_write_registers n) too_many_values
  let byte_count = n * 2
  let pdu = set (make (6 + byte_count)) 0 func_write_multiple_registers
  let pdu = put_uint16 pdu 1 address
  let pdu = put_uint16 pdu 3 (u16 n)
  let pdu = set pdu 5 (u8 byte_count)
  ok (put_words (λ i. get_or values i 0) 6 n 0 pdu)

unfoldable pub encode_write_multiple_coils : ℕ → List Bool → Result Bytes
encode_write_multiple_coils address values = do
  let n = length values
  refuse_if (n == 0) nothing_to_write
  refuse_if (ltb max_write_bits n) too_many_values
  let byte_count = (n + 7) / 8
  let pdu = set (make (6 + byte_count)) 0 func_write_multiple_coils
  let pdu = put_uint16 pdu 1 address
  let pdu = put_uint16 pdu 3 (u16 n)
  let pdu = set pdu 5 (u8 byte_count)
  ok (put_bits (λ i. get_or values i false) 6 n 0 pdu)

-- Go's `(code, true)` is `some code`.
unfoldable pub as_exception : Bytes → Option Byte
as_exception pdu =
    if leb 2 (length pdu) && not (bit_and (at pdu 0) exception_bit == 0)
    then some (at pdu 1)
    else none

unfoldable pub decode_read_bits_response : Bytes → ℕ → Result (List Bool)
decode_read_bits_response pdu quantity = do
  refuse_if (ltb (length pdu) 2) short_response
  let byte_count = at pdu 1
  let want = (quantity + 7) / 8
  refuse_if (not (byte_count == want)) byte_count_mismatch
  refuse_if (ltb (length pdu) (2 + byte_count)) truncated_response
  ok (tabulate quantity 0 (λ i. bit_at pdu 2 i))

unfoldable pub decode_read_registers_response : Bytes → ℕ → Result (List ℕ)
decode_read_registers_response pdu quantity = do
  refuse_if (ltb (length pdu) 2) short_response
  let byte_count = at pdu 1
  refuse_if (not (byte_count == quantity * 2)) byte_count_mismatch
  refuse_if (ltb (length pdu) (2 + byte_count)) truncated_response
  ok (tabulate quantity 0 (λ i. uint16 pdu (2 + 2 * i)))

unfoldable pub decode_write_echo : Bytes → ℕ → ℕ → Result (Unit {0})
decode_write_echo pdu want_address want_value = do
  refuse_if (ltb (length pdu) 5) short_response
  let got_address = uint16 pdu 1
  let got_value = uint16 pdu 3
  refuse_if (not (got_address == want_address)) echo_address_mismatch
  refuse_if (not (got_value == want_value)) echo_value_mismatch
  ok tt
