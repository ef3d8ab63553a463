-- ===== src/Mock/Listener.antt =====
-- The accept loop of internal/mock/server.go and its connections, which run side by side: `New`, `serve`,
-- `handle` cut into the parts between which another connection can run, and `Close`. The mutexes make
-- `shouldDrop` and `dispatch` one step each. Sockets stand for the bytes that have come and gone; the
-- delay of `WithLatency` lies between two steps and changes no value.
pub mod Turns
pub mod Closing
use otcat.Base.{
  ◌&&◌, not, ℕ, zero, suc, ◌+◌, ◌-◌, Bool, true, false, Option, some, none, List, [], ◌∷◌, ◌++◌,
  ltb, ◌==◌, length, take, drop, if◌then◌else◌,
}
use otcat.Base.Bytes.{Bytes, at, uint16}
use otcat.Mock.Server.{Server, dispatch, update}
use otcat.Mock.Connection.{response_frame}

-- A request whose bytes are read.
pub record Request : Type 0 where
  pub tx_id : ℕ
  pub unit_id : ℕ
  pub pdu : Bytes

-- Where the goroutine of a connection stands: before the header of the next request, before `shouldDrop`,
-- before `dispatch`, or behind its return.
pub data Phase : Type 0 where
  reading : Phase
  deciding : Request → Phase
  dispatching : Request → Phase
  closed : Phase

-- `is_ended`: the client has closed its side, so that a read past `inbound` is an error.
pub record Conn : Type 0 where
  pub inbound : Bytes
  pub outbound : Bytes
  pub is_ended : Bool
  pub phase : Phase

-- `drops` holds what the next calls of `shouldDrop` return, on whichever connection; behind them false.
-- The connections have the numbers below `accepted`, in the order of their `Accept`.
pub record Listener : Type 0 where
  pub server : Server
  pub drops : List Bool
  pub is_listening : Bool
  pub accepted : ℕ
  pub conns : ℕ → Conn

unfoldable pub set_conn : ℕ → Conn → Listener → Listener
set_conn i c l = record l { conns = update l.conns i c }

-- One turn of `serve`: `Accept` answers a connection until the listener is closed. What the client has
-- sent before waits in the socket.
unfoldable pub accept : Listener → Listener
accept l = if l.is_listening then record l { accepted = suc l.accepted } else l

-- The first half of `Close`, `s.ln.Close()`.
unfoldable pub close : Listener → Listener
close l = record l { is_listening = false }

unfoldable pub is_closed : Phase → Bool
is_closed reading = false
is_closed (deciding r) = false
is_closed (dispatching r) = false
is_closed closed = true

unfoldable pub all_closed : ℕ → (ℕ → Conn) → Bool
all_closed zero conns = true
all_closed (suc n) conns = let rest = all_closed n conns in is_closed (conns n).phase && rest

-- The second half of `Close`, `s.wg.Wait()`: whether it has returned, behind the first half, which `serve`
-- returns on.
unfoldable pub close_returns : Listener → Bool
close_returns l = not l.is_listening && all_closed l.accepted l.conns

-- `io.ReadFull` of `n` bytes waits for them, or fails where the client has closed before they have come.
unfoldable pub read_request : Conn → Conn
read_request c =
    let header = take 7 c.inbound in
    let rest = drop 7 c.inbound in
    let len = uint16 header 4 in
    let fails = if c.is_ended then record c { phase = closed } else c in
    if ltb (length c.inbound) 7
    then fails
    else if ltb len 2
    then record c { phase = closed }
    else if ltb (length rest) (len - 1)
    then fails
    else record c {
      inbound = drop (len - 1) rest;
      phase =
          deciding
            (record { tx_id = uint16 header 0; unit_id = at header 6; pdu = take (len - 1) rest });
    }

-- The call of `shouldDrop` and the branch on its result.
unfoldable pub decide : List Bool → ℕ → Conn → Request → Listener → Listener
unfolding set_conn
decide [] i c r l = set_conn i (record c { phase = dispatching r }) l
decide (d ∷ ds) i c r l =
    record (set_conn i (record c { phase = if d then closed else dispatching r }) l) { drops = ds }

-- The call of `dispatch` and the response, which `conn.Write` sends or fails to send.
unfoldable pub respond : Bool → ℕ → Conn → Request → Listener → Listener
unfolding set_conn
respond sends i c r l =
    let (resp_pdu, s) = dispatch l.server r.pdu in
    let frame = response_frame r.tx_id r.unit_id resp_pdu in
    let c =
      if sends
      then record c { outbound = c.outbound ++ frame; phase = reading }
      else record c { phase = closed } in
    record (set_conn i c l) { server = s }

-- The next part of `handle` on connection `i`, by where it stands.
unfoldable pub advance : Phase → Bool → ℕ → Conn → Listener → Listener
unfolding set_conn
advance reading sends i c l = set_conn i (read_request c) l
advance (deciding r) sends i c l = decide l.drops i c r l
advance (dispatching r) sends i c l = respond sends i c r l
advance closed sends i c l = l

-- What can happen next: bytes come on a connection or its client closes it, as the clients like, and the
-- goroutines take a turn, as the scheduler likes; the Boolean tells whether a write succeeds.
pub data Event : Type 0 where
  accepts : Event
  arrives : ℕ → Bytes → Event
  ends : ℕ → Event
  runs : ℕ → Bool → Event
  closes : Event

unfoldable pub happen : Event → Listener → Listener
unfolding accept close set_conn
happen accepts l = accept l
happen (arrives i b) l = let c = l.conns i in set_conn i (record c { inbound = c.inbound ++ b }) l
happen (ends i) l = set_conn i (record (l.conns i) { is_ended = true }) l
happen (runs i sends) l =
    if ltb i l.accepted then advance (l.conns i).phase sends i (l.conns i) l else l
happen closes l = close l

unfoldable pub happen_all : List Event → Listener → Listener
happen_all [] l = l
happen_all (e ∷ es) l = happen_all es (happen e l)

-- `New` on a port that is free, and the calls of `shouldDrop` that the drop rate gives.
unfoldable pub new_listener : Server → List Bool → Listener
new_listener s drops = record {
  server = s;
  drops = drops;
  is_listening = true;
  accepted = 0;
  conns = λ i. record { inbound = []; outbound = []; is_ended = false; phase = reading };
}
