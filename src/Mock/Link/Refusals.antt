-- ===== src/Mock/Link/Refusals.antt =====
-- Requests that run past the end of a table: the server refuses them with the exception "illegal
-- data address", and the client reports it and leaves the server as it was.
use otcat.Base.{
  ℕ, ◌+◌, ◌%◌, ◌≤◌, ◌<◌, ◌≢◌, ◌≡◌, refl, ◌∙◌, List, [], arith, length, All, bit_and, bit_or,
}
use otcat.Base.Bytes.{Bytes, IsU16, u16}
use otcat.Errors.{err, exception_response, ExceptionError}
use otcat.Modbus.Mbap.{max_pdu}
use otcat.Modbus.Pdu.{encode_read_request, exception_bit}
use otcat.Modbus.Pdu.Requests.{
  IsFive, encode_read_request-IsFive, IsWriteRegisters, registers_request, registers_request-layout,
  registers_accepted,
}
use otcat.Modbus.Client.{Client, do_request, read_holding_registers, write_multiple_registers}
use otcat.Modbus.Client.Exchange.{check_response_refused}
use otcat.Mock.Server
use otcat.Mock.Server.{Server, dispatch, exception, read_regs, table_len, ex_illegal_address}
use otcat.Mock.Connection.{Peer}
use otcat.Mock.Link.{link}
use otcat.Mock.Link.Calls.{IsReady, tx_of, do_request-dispatch}

-- The error that reports exception `code` for function `fc` to this client.
abbrev pub refusal : Client Peer → ℕ → ℕ → ExceptionError
refusal c fc code = record {
  function = fc;
  exception = code;
  unit_id = c.unit_id;
  transaction_id = u16 (tx_of c);
}

call_refused :
    (pdu : Bytes) (fc code : ℕ) (c : Client Peer) (k : Peer)
    → IsReady c k
    → dispatch k.server pdu ≡ (exception fc code, k.server)
    → 1 ≤ length pdu
    → length pdu ≤ max_pdu
    → bit_and (bit_or fc exception_bit) exception_bit ≢ 0
    → bit_and (bit_or fc exception_bit) 0x7F ≡ fc
    → do_request link pdu c
      ≡ (err (exception_response (refusal c fc code)), record c { tx_id = tx_of c })
unfolding exception
call_refused pdu fc code c k v e lo hi marked plain =
    do_request-dispatch pdu c k v.connection v.idle lo hi (rw e (omega arith)) (rw e (omega arith))
    ∙ rw e (
        check_response_refused link pdu (bit_or fc exception_bit) code [] (u16 (tx_of c)) _ marked
        ∙ ground (arith, v.connection))

-- Over an idle connection, with a 16-bit address and 1 to 125 registers that pass the table's end:
-- reading holding registers fails with the illegal-address exception of function 3, and of the client
-- and its connection only the transaction number changes.
pub read_holding_registers_out_of_range :
    (c : Client Peer) (k : Peer) (addr qty : ℕ)
    → IsReady c k
    → IsU16 addr
    → 1 ≤ qty
    → qty ≤ 125
    → table_len < addr + qty
    → read_holding_registers link addr qty c
      ≡ (err (exception_response (refusal c 0x03 ex_illegal_address)), record c { tx_id = tx_of c })
unfolding read_holding_registers
read_holding_registers_out_of_range c k addr qty v ha lo hi range = rw narrow (ground (arith, call))
  where
    narrow : qty % 65536 ≡ qty
    narrow = omega arith

    five : IsFive 0x03 addr qty (encode_read_request 0x03 addr qty)
    five = encode_read_request-IsFive 0x03 addr qty ha (omega arith)

    refused :
        dispatch k.server (encode_read_request 0x03 addr qty)
        ≡ (exception 0x03 ex_illegal_address, k.server)
    refused =
        unfold dispatch read_regs in
        rw (five.code, five.len, five.first_word, five.second_word) (ground arith)

    call : do_request link (encode_read_request 0x03 addr qty) c ≡ (
      err (exception_response (refusal c 0x03 ex_illegal_address)),
      record c { tx_id = tx_of c },
    )
    call =
        call_refused _ 0x03 ex_illegal_address c k v refused (omega (arith, five.len))
          (omega (arith, five.len)) (cc) refl

-- Over an idle connection, with a 16-bit address and 1 to 123 16-bit words that pass the table's end:
-- the block write fails with the illegal-address exception of function 16, and of the client, its
-- connection and the server only the transaction number changes.
pub write_multiple_registers_out_of_range :
    (c : Client Peer) (k : Peer) (addr : ℕ) (values : List ℕ)
    → IsReady c k
    → IsU16 addr
    → All IsU16 values
    → 1 ≤ length values
    → length values ≤ 123
    → table_len < addr + length values
    → write_multiple_registers link addr values c
      ≡ (err (exception_response (refusal c 0x10 ex_illegal_address)), record c { tx_id = tx_of c })
unfolding write_multiple_registers
write_multiple_registers_out_of_range c k addr values v ha words lo hi range =
    rw (registers_accepted addr values lo hi) (ground (arith, call))
  where
    pdu : Bytes
    pdu = registers_request addr values

    layout : IsWriteRegisters addr values pdu
    layout = registers_request-layout addr values ha words hi

    refused : dispatch k.server pdu ≡ (exception 0x10 ex_illegal_address, k.server)
    refused =
        unfold dispatch Server.write_multiple_registers in
        rw
          (
            layout.header.code, layout.header.start, layout.header.quantity_field,
            layout.header.count_field, layout.len,
          )
          (ground arith)

    call : do_request link pdu c ≡ (
      err (exception_response (refusal c 0x10 ex_illegal_address)),
      record c { tx_id = tx_of c },
    )
    call =
        call_refused pdu 0x10 ex_illegal_address c k v refused (omega (arith, layout.len))
          (omega (arith, layout.len)) (cc) refl
