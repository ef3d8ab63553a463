-- ===== src/Modbus/Mbap/RoundTrip.antt =====
-- A header written by `encode_mbap` is read back by `decode_mbap`, and what `decode_mbap` accepts.
use otcat.Base.{◌+◌, ◌≤◌, ◌≡◌, refl, arith, length}
use otcat.Base.Bytes.{Bytes, IsU16, put_uint16, uint16}
use otcat.Errors.{ok}
use otcat.Modbus.Mbap.{MbapHeader, encode_mbap, decode_mbap, max_pdu}

-- A header that the client may send: its fields fit their widths and its PDU fits the budget.
pub record IsWellFormed (h : MbapHeader) : Type 0 where
  pub transaction : IsU16 h.transaction_id
  pub protocol : h.protocol_id ≡ 0
  pub holds_pdu : 2 ≤ h.length
  pub in_budget : h.length ≤ max_pdu + 1

pub length-encode_mbap : (h : MbapHeader) → length (encode_mbap h) ≡ 7
unfolding encode_mbap put_uint16
length-encode_mbap h = refl

-- A header with 16-bit fields, protocol 0 and a PDU of 1 to 253 bytes is decoded from its own
-- encoding.
pub decode_mbap-encode_mbap : (h : MbapHeader) → IsWellFormed h → decode_mbap (encode_mbap h) ≡ ok h
unfolding encode_mbap decode_mbap put_uint16 uint16
decode_mbap-encode_mbap h v = ground arith

-- A header that is decoded had seven bytes, and has protocol 0 and a PDU of 1 to 253 bytes.
pub decode_mbap_ok :
    (b : Bytes) (h : MbapHeader)
    → decode_mbap b ≡ ok h
    → (7 ≤ length b) × (h.protocol_id ≡ 0) × (2 ≤ h.length) × (h.length ≤ max_pdu + 1)
unfolding decode_mbap
decode_mbap_ok b h e = ground arith
