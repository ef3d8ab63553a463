-- ===== src/Mock/Link/Singles.antt =====
-- The client's writes of one coil and of one register over the mock server, end to end.
use otcat.Base.{ℕ, ◌≡◌, refl, ap, ◌∙◌, Bool, arith, if◌then◌else◌, bit_and}
use otcat.Base.Bytes.{Bytes, IsU16}
use otcat.Errors.{ok}
use otcat.Modbus.Pdu.{
  encode_write_single_coil, encode_write_single_register, decode_write_echo, exception_bit, coil_on,
  coil_off,
}
use otcat.Modbus.Pdu.Requests.{
  IsFive, encode_write_single_coil-IsFive, encode_write_single_register-IsFive,
}
use otcat.Modbus.Pdu.Responses.{decode_write_echo_iff}
use otcat.Modbus.Client.{Client, do_request, write_single_coil, write_single_register}
use otcat.Mock.Server
use otcat.Mock.Server.{
  Server, dispatch, read_bits, table_len, echo, update, fc_write_multiple_coils,
}
use otcat.Mock.Server.Writes.{write_single_coil_lem, write_single_register_lem}
use otcat.Mock.Connection.{Peer}
use otcat.Mock.Link.{link}
use otcat.Mock.Link.Calls.{IsReady, call_ok}
use otcat.Mock.Link.Coils.{client_with_server}

dispatch_single_coil :
    (s : Server) (addr : ℕ) (v : ℕ) (pdu : Bytes)
    → IsFive 0x05 addr v pdu
    → dispatch s pdu ≡ Server.write_single_coil s pdu
unfolding dispatch
dispatch_single_coil s addr v pdu five = rw (five.code, five.len) refl

dispatch_single_register :
    (s : Server) (addr : ℕ) (v : ℕ) (pdu : Bytes)
    → IsFive 0x06 addr v pdu
    → dispatch s pdu ≡ Server.write_single_register s pdu
unfolding dispatch
dispatch_single_register s addr v pdu five = rw (five.code, five.len) refl

-- Over an idle connection, with a 16-bit address: writing one coil succeeds, that coil has the value,
-- and besides it only the transaction number changes.
pub write_single_coil-link :
    (c : Client Peer) (k : Peer) (addr : ℕ) (on : Bool)
    → IsReady c k
    → IsU16 addr
    → write_single_coil link addr on c ≡ (
      ok tt,
      client_with_server c k (record (k.server) { coils = update k.server.coils addr on }),
    )
unfolding write_single_coil
write_single_coil-link c k addr on v ha = ground (arith, call, confirmed)
  where
    value : ℕ
    value = if on then coil_on else coil_off

    pdu : Bytes
    pdu = encode_write_single_coil addr on

    five : IsFive 0x05 addr value pdu
    five = encode_write_single_coil-IsFive addr on ha

    confirmed : decode_write_echo pdu addr value ≡ ok tt
    confirmed = (decode_write_echo_iff _ addr value).1 (omega (arith, five))

    call : do_request link pdu c ≡ (
      ok pdu,
      client_with_server c k (record (k.server) { coils = update k.server.coils addr on }),
    )
    call =
        call_ok pdu pdu _ c k v
          (dispatch_single_coil k.server addr value pdu five
            ∙ write_single_coil_lem k.server addr on pdu five)
          (omega (arith, five)) (omega (arith, five)) (omega (arith, five)) (omega (arith, five))
          refl (ap (λ (b : ℕ). bit_and b exception_bit) five.code)

-- Over an idle connection, with a 16-bit address and value: writing one register succeeds, that
-- register has the value, and besides it only the transaction number changes.
pub write_single_register-link :
    (c : Client Peer) (k : Peer) (addr value : ℕ)
    → IsReady c k
    → IsU16 addr
    → IsU16 value
    → write_single_register link addr value c ≡ (
      ok tt,
      client_with_server c k (record (k.server) { holding = update k.server.holding addr value }),
    )
unfolding write_single_register
write_single_register-link c k addr value v ha hv = ground (arith, call, confirmed)
  where
    pdu : Bytes
    pdu = encode_write_single_register addr value

    five : IsFive 0x06 addr value pdu
    five = encode_write_single_register-IsFive addr value ha hv

    confirmed : decode_write_echo pdu addr value ≡ ok tt
    confirmed = (decode_write_echo_iff _ addr value).1 (omega (arith, five))

    call : do_request link pdu c ≡ (
      ok pdu,
      client_with_server c k (record (k.server) { holding = update k.server.holding addr value }),
    )
    call =
        call_ok pdu pdu _ c k v
          (dispatch_single_register k.server addr value pdu five
            ∙ write_single_register_lem k.server addr value pdu five)
          (omega (arith, five)) (omega (arith, five)) (omega (arith, five)) (omega (arith, five))
          refl (ap (λ (b : ℕ). bit_and b exception_bit) five.code)
