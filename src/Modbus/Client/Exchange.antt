-- ===== src/Modbus/Client/Exchange.antt =====
-- `do` of internal/modbus/client.go over any connection: what a response that it lets through is,
-- and what a call changes in the client.
use otcat.Base.{
  ℕ, ◌+◌, ◌%◌, ◌^◌, ◌≤◌, ◌≡◌, ap, ◌≢◌, Bool, true, false, some, none, ◌∷◌, arith, length, bit_and,
}
use otcat.Base.Bytes.{Bytes, at}
use otcat.Errors.{ok, err, not_connected, exception_response}
use otcat.Modbus.Mbap.{max_pdu}
use otcat.Modbus.Mbap.RoundTrip.{decode_mbap_ok}
use otcat.Modbus.Pdu.{exception_bit, as_exception}
use otcat.Modbus.Transport.{Transport}
use otcat.Modbus.Client.{
  Client, next_tx_id, reject_exception, check_deadline, send, receive, check_response, do_request,
}

-- What a client keeps through every call: its configuration, and whether it is connected.
abbrev pub is_connected : {Conn : Type 0} → Client Conn → Bool
is_connected c = elim c.conn [ none ↦ false | some _ ↦ true ]

pub record IsSameSession {Conn : Type 0} (c c' : Client Conn) : Type 0 where
  pub addr : c'.addr ≡ c.addr
  pub unit_id : c'.unit_id ≡ c.unit_id
  pub timeout : c'.timeout ≡ c.timeout
  pub connected : is_connected c' ≡ is_connected c

module _ (t : Transport) where
  open t use {Conn}

  -- Without a connection `do` fails, and no transaction number is used.
  pub do_request-unconnected :
      (pdu : Bytes) (c : Client Conn) → c.conn ≡ none → do_request t pdu c ≡ (err not_connected, c)
  unfolding do_request check_deadline
  do_request-unconnected pdu c h = ground arith

  -- Over any transport, `do` keeps the client's address, unit and timeout, and whether it is connected,
  -- whatever it returns.
  pub do_request-IsSameSession :
      (pdu : Bytes) (c : Client Conn) → IsSameSession c (do_request t pdu c).1
  unfolding do_request check_deadline next_tx_id send receive check_response reject_exception
  do_request-IsSameSession pdu c = ground arith

  -- Over any transport, a response that `do` returns has 1 to 253 bytes, the function code of the
  -- request and no exception, and the transaction counter has moved by one.
  pub do_request_ok :
      (pdu resp : Bytes) (c c' : Client Conn)
      → do_request t pdu c ≡ (ok resp, c')
      → (1 ≤ length resp)
        × (length resp ≤ max_pdu)
        × (at resp 0 ≡ at pdu 0)
        × (as_exception resp ≡ none)
        × (c'.tx_id ≡ (c.tx_id + 1) % 2 ^ 32)
  unfolding do_request check_deadline next_tx_id send receive check_response reject_exception
  do_request_ok pdu resp c c' h = grind (arith, decode_mbap_ok, t.read_full_fills)

  -- A response with the request's function code is let through.
  pub check_response_ok :
      (pdu resp : Bytes) (tx : ℕ) (c : Client Conn)
      → 1 ≤ length resp
      → at resp 0 ≡ at pdu 0
      → bit_and (at pdu 0) exception_bit ≡ 0
      → check_response t pdu resp tx c ≡ (ok resp, c)
  unfolding check_response reject_exception as_exception
  check_response_ok pdu resp tx c h e x = ground (arith, ap (λ (b : ℕ). bit_and b exception_bit) e)

  -- A response with the exception bit is an exception error.
  pub check_response_refused :
      (pdu : Bytes) (first code : ℕ) (rest : Bytes) (tx : ℕ) (c : Client Conn)
      → bit_and first exception_bit ≢ 0
      → check_response t pdu (first ∷ code ∷ rest) tx c ≡ (
        err (
            exception_response (record {
              function = bit_and first 0x7F;
              exception = code;
              unit_id = c.unit_id;
              transaction_id = tx;
            })),
        c,
      )
  unfolding check_response reject_exception as_exception
  check_response_refused pdu first code rest tx c marked = ground arith
