-- ===== src/Mock/Connection.antt =====
-- The connection loop of internal/mock/server.go (`handle`), as a step on the bytes received so far.
-- `io.ReadFull` blocks until enough bytes are there, so a round happens once a whole request is;
-- the delay of `WithLatency` changes no value and is left out.
pub mod Rounds
pub mod Segments
use otcat.Base.{
  ℕ, zero, suc, ◌+◌, ◌-◌, Bool, true, false, Option, some, none, List, [], ◌∷◌, ◌++◌, ltb, length,
  set, take, drop, if◌then◌else◌,
}
use otcat.Base.Bytes.{Bytes, make, at, u16, put_uint16, uint16}
use otcat.Mock.Server.{Server, dispatch}

-- One accepted connection. `drops` holds what the next calls of `shouldDrop` return; when it is
-- used up they return false, as they do where no drop rate is set.
pub record Peer : Type 0 where
  pub server : Server
  pub inbound : Bytes
  pub outbound : Bytes
  pub is_open : Bool
  pub drops : List Bool

next_drop : List Bool → Peer → Bool × Peer
next_drop [] k = (false, k)
next_drop (d ∷ ds) k = (d, record k { drops = ds })

unfoldable pub should_drop : Peer → Bool × Peer
unfolding next_drop
should_drop k = next_drop k.drops k

-- The frame that answers a request: its transaction and unit, and the length of the response.
unfoldable pub response_frame : ℕ → ℕ → Bytes → Bytes
response_frame tx_id unit_id resp_pdu =
    let resp_header = put_uint16 (make 7) 0 tx_id in
    let resp_header = put_uint16 resp_header 2 0 in
    let resp_header = put_uint16 resp_header 4 (u16 (length resp_pdu + 1)) in
    set resp_header 6 unit_id ++ resp_pdu

-- The answer to one request whose bytes are read.
unfoldable pub answer : Peer → ℕ → ℕ → Bytes → Peer
answer k tx_id unit_id pdu =
    let (drop_it, k) = should_drop k in
    let (resp_pdu, s) = dispatch k.server pdu in
    if drop_it
    then record k { is_open = false }
    else record k { server = s; outbound = k.outbound ++ response_frame tx_id unit_id resp_pdu }

-- One round of the loop; `none` while it waits for bytes.
unfoldable pub handle_round : Peer → Option Peer
handle_round k =
    let header = take 7 k.inbound in
    let rest = drop 7 k.inbound in
    let tx_id = uint16 header 0 in
    let len = uint16 header 4 in
    let unit_id = at header 6 in
    if ltb (length k.inbound) 7
    then none
    else if ltb len 2
    then some (record k { is_open = false })
    else if ltb (length rest) (len - 1)
    then none
    else some
        (answer (record k { inbound = drop (len - 1) rest }) tx_id unit_id (take (len - 1) rest))

-- The loop, for as many rounds as `fuel`; it ends when the connection closes or has to wait.
unfoldable pub handle : ℕ → Peer → Peer
handle zero k = k
handle (suc fuel) k = elim k.is_open [
  | false ↦ k
  | true ↦ elim (handle_round k) [ none ↦ k | some k' ↦ handle fuel k' ]
]
