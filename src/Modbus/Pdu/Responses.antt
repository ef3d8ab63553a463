-- ===== src/Modbus/Pdu/Responses.antt =====
-- What the response decoders of internal/modbus/pdu.go accept, and what they return.
use otcat.Base.{ℕ, ◌+◌, ◌*◌, ◌/◌, ◌≤◌, ◌≡◌, ◌↔◌, Bool, List, arith, length, tabulate}
use otcat.Base.Bytes.{Bytes, at, uint16}
use otcat.Base.Bits.{bit_at}
use otcat.Errors.{ok}
use otcat.Modbus.Pdu.{decode_read_bits_response, decode_read_registers_response, decode_write_echo}

-- A read-registers response is decoded exactly if its byte count is twice the quantity asked for and
-- that many bytes are there, and then it gives the words in order.
pub decode_read_registers_response_iff :
    (pdu : Bytes) (quantity : ℕ) (words : List ℕ)
    → (decode_read_registers_response pdu quantity ≡ ok words) ↔ (
        (2 ≤ length pdu)
        × (at pdu 1 ≡ quantity * 2)
        × (2 + quantity * 2 ≤ length pdu)
        × (words ≡ tabulate quantity 0 (λ i. uint16 pdu (2 + 2 * i))))
unfolding decode_read_registers_response
decode_read_registers_response_iff pdu quantity words = ground arith

-- A read-bits response is decoded exactly if its byte count is the bytes that the quantity needs and
-- that many are there, and then it gives the bits in order, the lowest of each byte first.
pub decode_read_bits_response_iff :
    (pdu : Bytes) (quantity : ℕ) (bits : List Bool)
    → (decode_read_bits_response pdu quantity ≡ ok bits) ↔ (
        (2 ≤ length pdu)
        × (at pdu 1 ≡ (quantity + 7) / 8)
        × (2 + (quantity + 7) / 8 ≤ length pdu)
        × (bits ≡ tabulate quantity 0 (λ i. bit_at pdu 2 i)))
unfolding decode_read_bits_response
decode_read_bits_response_iff pdu quantity bits = ground arith

-- A write is confirmed exactly by at least five bytes that repeat the address and the value sent.
pub decode_write_echo_iff :
    (pdu : Bytes) (address value : ℕ)
    → (decode_write_echo pdu address value ≡ ok tt)
      ↔ ((5 ≤ length pdu) × (uint16 pdu 1 ≡ address) × (uint16 pdu 3 ≡ value))
unfolding decode_write_echo
decode_write_echo_iff pdu address value = ground arith
