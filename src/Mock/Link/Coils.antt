-- ===== src/Mock/Link/Coils.antt =====
-- The client's reads and block writes of bits over the mock server, end to end.
use otcat.Base.{
  ℕ, ◌+◌, ◌-◌, ◌/◌, ◌%◌, ◌≤◌, ◌≡◌, refl, ap, ◌∙◌, Bool, false, some, List, arith, length, tabulate,
  tabulate_ext, tabulate-get_or, get_or, bit_and,
}
use otcat.Base.Bytes.{Bytes, IsByte, u16}
use otcat.Errors.{ok}
use otcat.Modbus.Pdu.{encode_read_request, decode_write_echo, exception_bit}
use otcat.Modbus.Pdu.Requests.{
  IsFive, encode_read_request-IsFive, IsWriteCoils, coils_request, coils_request-layout,
  coils_accepted,
}
use otcat.Modbus.Pdu.Responses.{decode_write_echo_iff}
use otcat.Modbus.Client.{
  Client, do_request, read_coils, read_discrete_inputs, read_bits_with, write_multiple_coils,
}
use otcat.Mock.Server
use otcat.Mock.Server.{
  Server, dispatch, read_bits, table_len, echo, update, fc_write_multiple_coils,
}
use otcat.Mock.Server.Reads.{
  IsReadResponse, bits_response, read_bits_accepted, bits_response_shape, decode-bits_response,
}
use otcat.Mock.Server.Writes.{write_multiple_coils_lem, overwritten, IsEcho, echo-IsEcho}
use otcat.Mock.Connection.{Peer}
use otcat.Mock.Link.{link}
use otcat.Mock.Link.Calls.{IsReady, tx_of, call_ok}

abbrev pub with_server : Peer → Server → Peer
with_server k s = record k { server = s }

-- The client after a call that left the server as `s`.
abbrev pub client_with_server : Client Peer → Peer → Server → Client Peer
client_with_server c k s = record c { conn = some (with_server k s); tx_id = tx_of c }

-- A read of a bit table in range returns its bits in order.
read_bits_call :
    (fc : ℕ) (table : ℕ → Bool) (c : Client Peer) (k : Peer) (addr qty : ℕ)
    → bit_and fc exception_bit ≡ 0
    → IsByte fc
    → ((pdu : Bytes)
        → IsFive fc addr qty pdu
        → dispatch k.server pdu ≡ (read_bits pdu fc table, k.server))
    → IsReady c k
    → 1 ≤ qty
    → qty ≤ 2000
    → addr + qty ≤ table_len
    → read_bits_with link fc addr qty c
      ≡ (ok (tabulate qty 0 (λ i. table (addr + i))), record c { tx_id = tx_of c })
unfolding read_bits_with
read_bits_call fc table c k addr qty plain hfc serves v lo hi range =
    rw narrow (
      ground
        (arith, call, decode-bits_response fc qty (λ i. table (addr + i)) hfc hi, v.connection))
  where
    narrow : qty % 65536 ≡ qty
    narrow = omega arith

    five : IsFive fc addr qty (encode_read_request fc addr qty)
    five = encode_read_request-IsFive fc addr qty (omega arith) (omega arith)

    shape : IsReadResponse fc ((qty + 7) / 8) (bits_response fc qty (λ i. table (addr + i)))
    shape = bits_response_shape fc qty (λ i. table (addr + i)) hi

    call : do_request link (encode_read_request fc addr qty) c ≡ (
      ok (bits_response fc qty (λ i. table (addr + i))),
      record c { conn = some k; tx_id = tx_of c },
    )
    call =
        call_ok (encode_read_request fc addr qty) _ k.server c k v
          (serves _ five
            ∙ ap (λ r. (r, k.server)) (read_bits_accepted _ fc fc addr qty table five lo hi range))
          (omega (arith, five)) (omega (arith, five)) (omega (arith, shape)) (omega (arith, shape))
          (omega (arith, shape, five)) (ap (λ (b : ℕ). bit_and b exception_bit) five.code ∙ plain)

dispatch_coils :
    (s : Server) (addr qty : ℕ) (pdu : Bytes)
    → IsFive 0x01 addr qty pdu
    → dispatch s pdu ≡ (read_bits pdu 0x01 s.coils, s)
unfolding dispatch
dispatch_coils s addr qty pdu v = rw (v.code, v.len) refl

dispatch_discrete :
    (s : Server) (addr qty : ℕ) (pdu : Bytes)
    → IsFive 0x02 addr qty pdu
    → dispatch s pdu ≡ (read_bits pdu 0x02 s.discrete, s)
unfolding dispatch
dispatch_discrete s addr qty pdu v = rw (v.code, v.len) refl

-- Over an idle connection, with 1 to 2000 coils inside the table: reading coils returns the server's
-- bits in order, and of the client and its connection only the transaction number changes.
pub read_coils_lem :
    (c : Client Peer) (k : Peer) (addr qty : ℕ)
    → IsReady c k
    → 1 ≤ qty
    → qty ≤ 2000
    → addr + qty ≤ table_len
    → read_coils link addr qty c
      ≡ (ok (tabulate qty 0 (λ i. k.server.coils (addr + i))), record c { tx_id = tx_of c })
unfolding read_coils
read_coils_lem c k addr qty v lo hi range =
    read_bits_call 0x01 k.server.coils c k addr qty refl (omega arith)
      (dispatch_coils k.server addr qty) v lo hi range

-- Over an idle connection, with 1 to 2000 inputs inside the table: reading discrete inputs returns the
-- server's bits in order, and of the client and its connection only the transaction number changes.
pub read_discrete_inputs_lem :
    (c : Client Peer) (k : Peer) (addr qty : ℕ)
    → IsReady c k
    → 1 ≤ qty
    → qty ≤ 2000
    → addr + qty ≤ table_len
    → read_discrete_inputs link addr qty c
      ≡ (ok (tabulate qty 0 (λ i. k.server.discrete (addr + i))), record c { tx_id = tx_of c })
unfolding read_discrete_inputs
read_discrete_inputs_lem c k addr qty v lo hi range =
    read_bits_call 0x02 k.server.discrete c k addr qty refl (omega arith)
      (dispatch_discrete k.server addr qty) v lo hi range

dispatch_write_coils :
    (s : Server) (addr : ℕ) (values : List Bool) (pdu : Bytes)
    → IsWriteCoils addr values pdu
    → dispatch s pdu ≡ Server.write_multiple_coils s pdu
unfolding dispatch
dispatch_write_coils s addr values pdu v = rw (v.header.code, v.len) (ground arith)

-- Over an idle connection, with a list of 1 to 1968 values that fits the table: a block write
-- succeeds, the server's coils are overwritten with the list from the address on, and besides them
-- only the transaction number changes.
pub write_multiple_coils-link :
    (c : Client Peer) (k : Peer) (addr : ℕ) (values : List Bool)
    → IsReady c k
    → 1 ≤ length values
    → length values ≤ 1968
    → addr + length values ≤ table_len
    → write_multiple_coils link addr values c ≡ (
      ok tt,
      client_with_server c k
          (record (k.server) { coils = overwritten addr values false k.server.coils }),
    )
unfolding write_multiple_coils
write_multiple_coils-link c k addr values v lo hi range =
    rw (coils_accepted addr values lo hi) (ground (arith, call, confirmed))
  where
    n : ℕ
    n = length values

    pdu : Bytes
    pdu = coils_request addr values

    layout : IsWriteCoils addr values pdu
    layout = coils_request-layout addr values (omega arith) hi

    echoed : IsEcho fc_write_multiple_coils addr n (echo fc_write_multiple_coils pdu)
    echoed =
        rw (layout.header.start, layout.header.quantity_field) at
          (echo-IsEcho fc_write_multiple_coils pdu (omega (arith, layout.len)))

    confirmed : decode_write_echo (echo fc_write_multiple_coils pdu) addr (u16 n) ≡ ok tt
    confirmed = (decode_write_echo_iff _ addr (u16 n)).1 (omega (arith, echoed))

    call : do_request link pdu c ≡ (
      ok (echo fc_write_multiple_coils pdu),
      client_with_server c k
          (record (k.server) { coils = overwritten addr values false k.server.coils }),
    )
    call =
        call_ok pdu (echo fc_write_multiple_coils pdu) _ c k v
          (dispatch_write_coils k.server addr values pdu layout
            ∙ write_multiple_coils_lem k.server addr values pdu layout lo hi range)
          (omega (arith, layout.len)) (omega (arith, layout.len)) (omega (arith, echoed))
          (omega (arith, echoed)) (omega (arith, echoed, layout.header))
          (ap (λ (b : ℕ). bit_and b exception_bit) layout.header.code)

-- Over an idle connection, with a block of 1 to 1968 coils inside the table: reading the block after
-- writing it returns the list written.
pub read-write_multiple_coils :
    (c : Client Peer) (k : Peer) (addr : ℕ) (values : List Bool)
    → IsReady c k
    → 1 ≤ length values
    → length values ≤ 1968
    → addr + length values ≤ table_len
    → (read_coils link addr (length values) (write_multiple_coils link addr values c).1).0
      ≡ ok values
read-write_multiple_coils c k addr values v lo hi range =
    rw
      (
        write_multiple_coils-link c k addr values v lo hi range,
        read_coils_lem c' k' addr (length values) ready lo (omega arith) range,
      )
      (ap ok (same ∙ tabulate-get_or values false))
  where
    s' : Server
    s' = record (k.server) { coils = overwritten addr values false k.server.coils }

    k' : Peer
    k' = with_server k s'

    c' : Client Peer
    c' = client_with_server c k s'

    ready : IsReady c' k'
    ready = record {
      connection = refl;
      idle = record {
        no_inbound = v.idle.no_inbound;
        no_outbound = v.idle.no_outbound;
        opened = v.idle.opened;
        no_drops = v.idle.no_drops;
      };
    }

    same :
        tabulate (length values) 0 (λ i. overwritten addr values false k.server.coils (addr + i))
        ≡ tabulate (length values) 0 (λ i. get_or values i false)
    same =
        tabulate_ext (length values) 0 _ _
          λ i low high. let e : addr + i - addr ≡ i = omega arith in ground arith
