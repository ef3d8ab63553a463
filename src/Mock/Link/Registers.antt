-- ===== src/Mock/Link/Registers.antt =====
-- The client's register operations over the mock server, end to end: what is read is what the
-- server's tables hold, and what is written is read back.
use otcat.Base.{
  ℕ, ◌+◌, ◌-◌, ◌*◌, ◌%◌, ◌≤◌, ◌≡◌, refl, ap, ◌∙◌, some, List, arith, length, All, tabulate,
  tabulate_ext, tabulate-get_or, get_or, bit_and,
}
use otcat.Base.Bytes.{Bytes, IsU16, u16}
use otcat.Errors.{ok}
use otcat.Modbus.Pdu.{encode_read_request, decode_write_echo, exception_bit}
use otcat.Modbus.Pdu.Requests.{
  get_or-IsU16, IsFive, encode_read_request-IsFive, IsWriteRegisters, registers_request,
  registers_request-layout, registers_accepted,
}
use otcat.Modbus.Pdu.Responses.{decode_write_echo_iff}
use otcat.Modbus.Client.{
  Client, do_request, read_input_registers, read_holding_registers, read_registers_with,
  write_multiple_registers,
}
use otcat.Mock.Server
use otcat.Mock.Server.{Server, dispatch, read_regs, table_len, echo, fc_write_multiple_regs}
use otcat.Mock.Server.Reads.{
  IsReadResponse, registers_response, read_regs_accepted, registers_response_shape,
  decode-registers_response,
}
use otcat.Mock.Server.Writes.{write_multiple_registers_lem, overwritten, IsEcho, echo-IsEcho}
use otcat.Mock.Connection.{Peer}
use otcat.Mock.Link.{link}
use otcat.Mock.Link.Calls.{IsReady, tx_of, call_ok}

dispatch_holding :
    (s : Server) (addr qty : ℕ) (pdu : Bytes)
    → IsFive 0x03 addr qty pdu
    → dispatch s pdu ≡ (read_regs pdu 0x03 s.holding, s)
unfolding dispatch
dispatch_holding s addr qty pdu v = rw (v.code, v.len) refl

abbrev with_holding : Peer → (ℕ → ℕ) → Peer
with_holding k t = record k { server = record (k.server) { holding = t } }

-- The client after a call that left the server's registers as `t`.
abbrev pub client_with_holding : Client Peer → Peer → (ℕ → ℕ) → Client Peer
client_with_holding c k t = record c { conn = some (with_holding k t); tx_id = tx_of c }

-- A read of a register table in range returns its words in order.
read_registers_call :
    (fc : ℕ) (table : ℕ → ℕ) (c : Client Peer) (k : Peer) (addr qty : ℕ)
    → bit_and fc exception_bit ≡ 0
    → ((pdu : Bytes)
        → IsFive fc addr qty pdu
        → dispatch k.server pdu ≡ (read_regs pdu fc table, k.server))
    → IsReady c k
    → ((j : ℕ) → IsU16 (table j))
    → 1 ≤ qty
    → qty ≤ 125
    → addr + qty ≤ table_len
    → read_registers_with link fc addr qty c
      ≡ (ok (tabulate qty 0 (λ i. table (addr + i))), record c { tx_id = tx_of c })
unfolding read_registers_with
read_registers_call fc table c k addr qty plain serves v words lo hi range = rw (narrow) (
    ground (
      arith,
      call,
      decode-registers_response fc qty (λ i. table (addr + i)) hi (λ i. words (addr + i)),
      v.connection,
    ))
  where
    narrow : qty % 65536 ≡ qty
    narrow = omega arith

    five : IsFive fc addr qty (encode_read_request fc addr qty)
    five = encode_read_request-IsFive fc addr qty (omega arith) (omega arith)

    shape : IsReadResponse fc (qty * 2) (registers_response fc qty (λ i. table (addr + i)))
    shape = registers_response_shape fc qty (λ i. table (addr + i)) hi

    call : do_request link (encode_read_request fc addr qty) c ≡ (
      ok (registers_response fc qty (λ i. table (addr + i))),
      record c { conn = some k; tx_id = tx_of c },
    )
    call =
        call_ok (encode_read_request fc addr qty) _ k.server c k v
          (serves _ five
            ∙ ap (λ r. (r, k.server)) (read_regs_accepted _ fc fc addr qty table five lo hi range))
          (omega (arith, five)) (omega (arith, five)) (omega (arith, shape)) (omega (arith, shape))
          (omega (arith, shape, five)) (ap (λ (b : ℕ). bit_and b exception_bit) five.code ∙ plain)

-- Over an idle connection, with 16-bit words in the server's table and 1 to 125 registers inside the
-- table: reading holding registers returns the server's words in order, and of the client and its
-- connection only the transaction number changes.
pub read_holding_registers_lem :
    (c : Client Peer) (k : Peer) (addr qty : ℕ)
    → IsReady c k
    → ((j : ℕ) → IsU16 (k.server.holding j))
    → 1 ≤ qty
    → qty ≤ 125
    → addr + qty ≤ table_len
    → read_holding_registers link addr qty c
      ≡ (ok (tabulate qty 0 (λ i. k.server.holding (addr + i))), record c { tx_id = tx_of c })
unfolding read_holding_registers
read_holding_registers_lem c k addr qty v words lo hi range =
    read_registers_call 0x03 k.server.holding c k addr qty refl (dispatch_holding k.server addr qty)
      v words lo hi range

dispatch_input :
    (s : Server) (addr qty : ℕ) (pdu : Bytes)
    → IsFive 0x04 addr qty pdu
    → dispatch s pdu ≡ (read_regs pdu 0x04 s.input, s)
unfolding dispatch
dispatch_input s addr qty pdu v = rw (v.code, v.len) refl

-- Over an idle connection, with 16-bit words in the server's table and 1 to 125 registers inside the
-- table: reading input registers returns the server's words in order, and of the client and its
-- connection only the transaction number changes.
pub read_input_registers_lem :
    (c : Client Peer) (k : Peer) (addr qty : ℕ)
    → IsReady c k
    → ((j : ℕ) → IsU16 (k.server.input j))
    → 1 ≤ qty
    → qty ≤ 125
    → addr + qty ≤ table_len
    → read_input_registers link addr qty c
      ≡ (ok (tabulate qty 0 (λ i. k.server.input (addr + i))), record c { tx_id = tx_of c })
unfolding read_input_registers
read_input_registers_lem c k addr qty v words lo hi range =
    read_registers_call 0x04 k.server.input c k addr qty refl (dispatch_input k.server addr qty) v
      words lo hi range

dispatch_write_registers :
    (s : Server) (addr : ℕ) (values : List ℕ) (pdu : Bytes)
    → IsWriteRegisters addr values pdu
    → dispatch s pdu ≡ Server.write_multiple_registers s pdu
unfolding dispatch
dispatch_write_registers s addr values pdu v = rw (v.header.code, v.len) (ground arith)

-- Over an idle connection, with a list of 1 to 123 16-bit words that fits the table: a block write
-- succeeds, the server's holding registers are overwritten with the list from the address on, and
-- besides them only the transaction number changes.
pub write_multiple_registers-link :
    (c : Client Peer) (k : Peer) (addr : ℕ) (values : List ℕ)
    → IsReady c k
    → All IsU16 values
    → 1 ≤ length values
    → length values ≤ 123
    → addr + length values ≤ table_len
    → write_multiple_registers link addr values c
      ≡ (ok tt, client_with_holding c k (overwritten addr values 0 k.server.holding))
unfolding write_multiple_registers
write_multiple_registers-link c k addr values v words lo hi range =
    rw (registers_accepted addr values lo hi) (ground (arith, call, confirmed))
  where
    n : ℕ
    n = length values

    pdu : Bytes
    pdu = registers_request addr values

    layout : IsWriteRegisters addr values pdu
    layout = registers_request-layout addr values (omega arith) words hi

    echoed : IsEcho fc_write_multiple_regs addr n (echo fc_write_multiple_regs pdu)
    echoed =
        rw (layout.header.start, layout.header.quantity_field) at
          (echo-IsEcho fc_write_multiple_regs pdu (omega (arith, layout.len)))

    confirmed : decode_write_echo (echo fc_write_multiple_regs pdu) addr (u16 n) ≡ ok tt
    confirmed = (decode_write_echo_iff _ addr (u16 n)).1 (omega (arith, echoed))

    call : do_request link pdu c ≡ (
      ok (echo fc_write_multiple_regs pdu),
      client_with_holding c k (overwritten addr values 0 k.server.holding),
    )
    call =
        call_ok pdu (echo fc_write_multiple_regs pdu) _ c k v
          (dispatch_write_registers k.server addr values pdu layout
            ∙ write_multiple_registers_lem k.server addr values pdu layout lo hi range)
          (omega (arith, layout.len)) (omega (arith, layout.len)) (omega (arith, echoed))
          (omega (arith, echoed)) (omega (arith, echoed, layout.header))
          (ap (λ (b : ℕ). bit_and b exception_bit) layout.header.code)

-- Over an idle connection, with 16-bit words in the server's table and in the list, and a block of 1 to
-- 123 registers inside the table: reading the block after writing it returns the list written.
pub read-write_multiple_registers :
    (c : Client Peer) (k : Peer) (addr : ℕ) (values : List ℕ)
    → IsReady c k
    → ((j : ℕ) → IsU16 (k.server.holding j))
    → All IsU16 values
    → 1 ≤ length values
    → length values ≤ 123
    → addr + length values ≤ table_len
    → (read_holding_registers link addr
        (length values)
        (write_multiple_registers link addr values c).1).0
      ≡ ok values
read-write_multiple_registers c k addr values v words new lo hi range =
    rw
      (
        write_multiple_registers-link c k addr values v new lo hi range,
        read_holding_registers_lem c' k' addr (length values) ready stored lo (omega arith) range,
      )
      (ap ok (same ∙ tabulate-get_or values 0))
  where
    k' : Peer
    k' = with_holding k (overwritten addr values 0 k.server.holding)

    c' : Client Peer
    c' = client_with_holding c k (overwritten addr values 0 k.server.holding)

    ready : IsReady c' k'
    ready = record {
      connection = refl;
      idle = record {
        no_inbound = v.idle.no_inbound;
        no_outbound = v.idle.no_outbound;
        opened = v.idle.opened;
        no_drops = v.idle.no_drops;
      };
    }

    stored : (j : ℕ) → IsU16 (overwritten addr values 0 k.server.holding j)
    stored j = ground (arith, words j, get_or-IsU16 values (j - addr) new)

    same :
        tabulate (length values) 0 (λ i. overwritten addr values 0 k.server.holding (addr + i))
        ≡ tabulate (length values) 0 (λ i. get_or values i 0)
    same =
        tabulate_ext (length values) 0 _ _
          λ i low high. let e : addr + i - addr ≡ i = omega arith in ground arith
