-- ===== src/Mock/Link/Calls.antt =====
-- `do` of internal/modbus/client.go over the mock server: one call of `dispatch`.
use otcat.Base.{
  ℕ, zero, suc, ◌+◌, ◌-◌, ◌*◌, ◌/◌, ◌%◌, ◌^◌, ◌≤◌, ◌≡◌, refl, ◌∙◌, true, some, none, [], ◌++◌,
  arith, length, length-append, bit_and, take_length, drop_length,
}
use otcat.Base.Bytes.{Bytes, IsU16, at, u16, put_uint16, uint16}
use otcat.Errors.{ok, done}
use otcat.Modbus.Mbap.{MbapHeader, encode_mbap, max_pdu}
use otcat.Modbus.Mbap.RoundTrip.{decode_mbap-encode_mbap, length-encode_mbap}
use otcat.Modbus.Pdu.{exception_bit}
use otcat.Modbus.Client.Exchange.{check_response_ok}
use otcat.Modbus.Client.{
  Client, next_tx_id, check_deadline, send, receive, check_response, do_request,
}
use otcat.Mock.Server.{Server, dispatch}
use otcat.Mock.Connection.{Peer, should_drop, response_frame, answer, handle_round, handle}
use otcat.Mock.Link.{link, link_write, link_read_full}

abbrev header_of : ℕ → ℕ → Bytes → MbapHeader
header_of tx unit pdu = record {
  transaction_id = tx;
  protocol_id = 0;
  length = length pdu + 1;
  unit_id = unit;
}

-- A whole request is answered, whatever its transaction and unit.
handle_round_frame :
    (k : Peer) (tx unit : ℕ) (pdu : Bytes)
    → IsU16 tx
    → 1 ≤ length pdu
    → length pdu ≤ max_pdu
    → k.inbound ≡ encode_mbap (header_of tx unit pdu) ++ pdu
    → handle_round k ≡ some (answer (record k { inbound = [] }) tx unit pdu)
unfolding handle_round encode_mbap put_uint16 uint16
handle_round_frame k tx unit pdu htx lo hi e =
    rw
      (
        e,
        word (length pdu + 1) (omega arith),
        word tx htx,
        less_one,
        take_length pdu,
        drop_length pdu,
      )
      (ground arith)
  where
    word : (v : ℕ) → IsU16 v → v / 256 % 256 * 256 + v % 256 ≡ v
    word v h = omega arith

    less_one : length pdu + 1 - 1 ≡ length pdu
    less_one = omega arith

handle_waits : (fuel : ℕ) (k : Peer) → k.inbound ≡ [] → handle fuel k ≡ k
unfolding handle handle_round
handle_waits zero k h = refl
handle_waits (suc fuel) k h = ground arith

-- The server keeps up: no request is waiting or half answered, and none will be dropped.
pub record IsIdle (k : Peer) : Type 0 where
  pub no_inbound : k.inbound ≡ []
  pub no_outbound : k.outbound ≡ []
  pub opened : k.is_open ≡ true
  pub no_drops : k.drops ≡ []

-- The state in which an idle server's connection is left by a request.
abbrev answered : Peer → ℕ → ℕ → Bytes → Peer
answered k tx unit pdu = record k {
  server = (dispatch k.server pdu).1;
  inbound = [];
  outbound = response_frame tx unit (dispatch k.server pdu).0;
}

answer_idle :
    (k : Peer) (tx unit : ℕ) (pdu : Bytes)
    → k.drops ≡ []
    → k.outbound ≡ []
    → answer (record k { inbound = [] }) tx unit pdu ≡ answered k tx unit pdu
unfolding answer should_drop
answer_idle k tx unit pdu hd ho = ground arith

handle_frame :
    (fuel : ℕ) (k : Peer) (tx unit : ℕ) (pdu : Bytes)
    → k.drops ≡ []
    → k.outbound ≡ []
    → k.is_open ≡ true
    → IsU16 tx
    → 1 ≤ length pdu
    → length pdu ≤ max_pdu
    → k.inbound ≡ encode_mbap (header_of tx unit pdu) ++ pdu
    → handle (suc fuel) k ≡ answered k tx unit pdu
unfolding handle
handle_frame fuel k tx unit pdu hd ho hopen htx lo hi e = ground (
  arith,
  handle_round_frame k tx unit pdu htx lo hi e,
  answer_idle k tx unit pdu hd ho,
  handle_waits fuel (answered k tx unit pdu),
)

length-frame :
    (tx unit : ℕ) (pdu : Bytes)
    → length (encode_mbap (header_of tx unit pdu) ++ pdu) ≡ suc (6 + length pdu)
length-frame tx unit pdu = omega (
  arith,
  length-append (encode_mbap (header_of tx unit pdu)) pdu,
  length-encode_mbap (header_of tx unit pdu),
)

link_write_frame :
    (k : Peer) (tx unit : ℕ) (pdu : Bytes)
    → IsIdle k
    → IsU16 tx
    → 1 ≤ length pdu
    → length pdu ≤ max_pdu
    → link_write k (encode_mbap (header_of tx unit pdu) ++ pdu) ≡ (none, answered k tx unit pdu)
unfolding link_write
link_write_frame k tx unit pdu idle htx lo hi =
    rw (idle.no_inbound, length-frame) (ground (arith, run))
  where
    run :
        handle
          (suc (6 + length pdu))
          (record k { inbound = encode_mbap (header_of tx unit pdu) ++ pdu })
        ≡ answered k tx unit pdu
    run =
        handle_frame _ (record k { inbound = encode_mbap (header_of tx unit pdu) ++ pdu }) tx unit
          pdu idle.no_drops idle.no_outbound idle.opened htx lo hi refl

-- What the client makes of a response that has arrived whole.
take_response :
    (k : Peer) (tx unit : ℕ) (resp : Bytes)
    → IsU16 tx
    → 1 ≤ length resp
    → length resp ≤ max_pdu
    → k.outbound ≡ response_frame tx unit resp
    → (link_read_full k 7
        ≡ (done (encode_mbap (header_of tx unit resp)), record k { outbound = resp }))
      × (link_read_full (record k { outbound = resp }) (length resp)
          ≡ (done resp, record k { outbound = [] }))
unfolding link_read_full response_frame encode_mbap put_uint16
take_response k tx unit resp htx lo hi e =
    (rw (e, small) (ground arith), ground (arith, take_length resp, drop_length resp))
  where
    small : (length resp + 1) % 65536 ≡ length resp + 1
    small = omega arith

-- The client after a call that the server answered.
abbrev pub tx_of : {Conn : Type 0} → Client Conn → ℕ
tx_of c = (c.tx_id + 1) % 2 ^ 32

abbrev pub after_call : Client Peer → Peer → Bytes → Client Peer
after_call c k pdu = record c {
  conn = some (record k { server = (dispatch k.server pdu).1 });
  tx_id = tx_of c;
}

-- Over an idle connection, for a request and a response of 1 to 253 bytes: `do` is `check_response` on
-- what `dispatch` answers, and it leaves the connection idle with the server that `dispatch` leaves.
pub do_request-dispatch :
    (pdu : Bytes) (c : Client Peer) (k : Peer)
    → c.conn ≡ some k
    → IsIdle k
    → 1 ≤ length pdu
    → length pdu ≤ max_pdu
    → 1 ≤ length (dispatch k.server pdu).0
    → length (dispatch k.server pdu).0 ≤ max_pdu
    → do_request link pdu c
      ≡ check_response link pdu (dispatch k.server pdu).0 (u16 (tx_of c)) (after_call c k pdu)
unfolding do_request check_deadline next_tx_id send receive
do_request-dispatch pdu c k hc idle lo hi rlo rhi = ground (
  arith,
  link_write_frame k tx c.unit_id pdu idle (omega arith) lo hi,
  got.0,
  got.1,
  decode_mbap-encode_mbap (header_of tx c.unit_id resp) (omega arith),
)
  where
    tx : ℕ
    tx = u16 (tx_of c)

    resp : Bytes
    resp = (dispatch k.server pdu).0

    got :
        (link_read_full (answered k tx c.unit_id pdu) 7 ≡ (
          done (encode_mbap (header_of tx c.unit_id resp)),
          record k { server = (dispatch k.server pdu).1; inbound = []; outbound = resp },
        ))
        × (link_read_full
              (record k { server = (dispatch k.server pdu).1; inbound = []; outbound = resp })
              (length resp)
            ≡ (
              done resp,
              record k { server = (dispatch k.server pdu).1; inbound = []; outbound = [] },
            ))
    got = take_response (answered k tx c.unit_id pdu) tx c.unit_id resp (omega arith) rlo rhi refl

-- A client over an idle connection to a server, and that connection.
pub record IsReady (c : Client Peer) (k : Peer) : Type 0 where
  pub connection : c.conn ≡ some k
  pub idle : IsIdle k

-- A call whose answer passes the checks of `do`.
pub call_ok :
    (pdu resp : Bytes) (s' : Server) (c : Client Peer) (k : Peer)
    → IsReady c k
    → dispatch k.server pdu ≡ (resp, s')
    → 1 ≤ length pdu
    → length pdu ≤ 253
    → 1 ≤ length resp
    → length resp ≤ 253
    → at resp 0 ≡ at pdu 0
    → bit_and (at pdu 0) exception_bit ≡ 0
    → do_request link pdu c
      ≡ (ok resp, record c { conn = some (record k { server = s' }); tx_id = tx_of c })
call_ok pdu resp s' c k v e lo hi rlo rhi same plain =
    do_request-dispatch pdu c k v.connection v.idle lo hi (rw e rlo) (rw e rhi)
    ∙ rw e (check_response_ok link pdu resp _ _ rlo same plain)
