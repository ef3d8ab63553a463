-- ===== src/Modbus/Mbap.antt =====
-- internal/modbus/mbap.go: the seven-byte header in front of every PDU, and the PDU budget of
-- internal/modbus/limits.go.
pub mod RoundTrip
use otcat.Base.{ℕ, ◌+◌, ◌-◌, refl, ltb, ◌==◌, not, length, set}
use otcat.Base.Bytes.{Bytes, make, at, put_uint16, uint16}
use otcat.Errors.{
  Result, ok, err, ◌>>=◌, ◌>>◌, refuse_if, short_mbap, wrong_protocol_id, length_too_small,
  length_too_big,
}

abbrev pub max_pdu : ℕ
max_pdu = 253

abbrev pub mbap_len : ℕ
mbap_len = 7

abbrev pub protocol_id : ℕ
protocol_id = 0

pub record MbapHeader : Type 0 where
  pub transaction_id : ℕ  -- uint16
  pub protocol_id : ℕ  -- uint16
  pub length : ℕ  -- uint16
  pub unit_id : ℕ  -- byte

unfoldable pub encode_mbap : MbapHeader → Bytes
encode_mbap h =
    let b = put_uint16 (make mbap_len) 0 h.transaction_id in
    let b = put_uint16 b 2 h.protocol_id in let b = put_uint16 b 4 h.length in set b 6 h.unit_id

-- On an error the header that Go also returns is never read.
unfoldable pub decode_mbap : Bytes → Result MbapHeader
decode_mbap b = do
  refuse_if (ltb (length b) mbap_len) short_mbap
  let h : MbapHeader = record {
    transaction_id = uint16 b 0;
    protocol_id = uint16 b 2;
    length = uint16 b 4;
    unit_id = at b 6;
  }
  refuse_if (not (h.protocol_id == protocol_id)) wrong_protocol_id
  refuse_if (ltb h.length 2) length_too_small
  refuse_if (ltb max_pdu (h.length - 1)) length_too_big
  ok h
