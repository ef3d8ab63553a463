-- ===== src/Runs/Wire.antt =====
-- internal/modbus/client.go over internal/mock at concrete inputs: a client whose counter is about to
-- wrap around, and a server with a few cells set.
use otcat.Base.{
  All, ℕ, ◌+◌, ◌^◌, ◌%◌, ◌∙◌, ◌≤◌, ◌<◌, ◌≡◌, refl, List, [], ◌∷◌, some, none, Bool, true, false,
  arith, ◌==◌, if◌then◌else◌, length, codes,
}
use otcat.Base.Bytes.{Bytes, at, u16, uint16, put_words, put_uint16}
use otcat.Modbus.Mbap.{max_pdu}
use otcat.Modbus.Pdu.{as_exception}
use otcat.Mock.Server.Invariant.{dispatch-Fits}
use otcat.Modbus.Client.Lost.{IsLoss, Failed, do_requests, do_requests-fail}
use otcat.Errors.{eof, ok}
use otcat.Modbus.Client.{
  Client, do_request, check_response, read_coils, read_holding_registers, write_multiple_registers,
  write_multiple_coils,
}
use otcat.Modbus.Client.Exchange.{
  IsSameSession, do_request-IsSameSession, do_request_ok, check_response_ok,
}
use otcat.Mock.Server.{Server, dispatch, read_regs}
use otcat.Mock.Connection.{Peer}
use otcat.Mock.Link.{link, link_write, link_read_full}
use otcat.Mock.Link.Calls.{IsIdle, IsReady, tx_of, after_call, do_request-dispatch}
use otcat.Mock.Link.Registers.{read-write_multiple_registers}
use otcat.Mock.Link.Coils.{read-write_multiple_coils}

abbrev pub plant : Server
plant = record {
  coils = λ j. j == 3;
  discrete = λ j. j == 1;
  holding = λ j. if j == 10 then 42 else 0;
  input = λ _. 7;
}

abbrev pub peer : Peer
peer = record { server = plant; inbound = []; outbound = []; is_open = true; drops = [] }

abbrev pub client : Client Peer
client = record {
  addr = codes "plc:502";
  unit_id = 1;
  timeout = 5;
  conn = some peer;
  tx_id = 65535;
}

pub peer-IsIdle : IsIdle peer
peer-IsIdle = record { no_inbound = refl; no_outbound = refl; opened = refl; no_drops = refl }

pub client-IsReady : IsReady client peer
client-IsReady = record { connection = refl; idle = peer-IsIdle }

pub holding-IsU16 : (j : ℕ) → plant.holding j < 65536
holding-IsU16 j = ground arith

abbrev words : List ℕ
words = 300 ∷ 7 ∷ []

abbrev bits : List Bool
bits = true ∷ false ∷ true ∷ []

read-write_multiple_registers_example :
    (read_holding_registers link 10 2 (write_multiple_registers link 10 words client).1).0
    ≡ ok words
read-write_multiple_registers_example =
    read-write_multiple_registers client peer 10 words client-IsReady holding-IsU16 (omega arith)
      (omega arith) (omega arith) (omega arith)

read-write_multiple_coils_example :
    (read_coils link 2 3 (write_multiple_coils link 2 bits client).1).0 ≡ ok bits
read-write_multiple_coils_example =
    read-write_multiple_coils client peer 2 bits client-IsReady (omega arith) (omega arith)
      (omega arith)

abbrev read_pdu : Bytes
read_pdu = 3 ∷ 0 ∷ 10 ∷ 0 ∷ 1 ∷ []

do_request-IsSameSession_example : IsSameSession client (do_request link read_pdu client).1
do_request-IsSameSession_example = do_request-IsSameSession link read_pdu client

-- What the call leaves, and the response that it returns.
do_request-returns :
    do_request link read_pdu client ≡ (ok (3 ∷ 2 ∷ 0 ∷ 42 ∷ []), record client { tx_id = 65536 })
unfolding dispatch read_regs uint16 put_words put_uint16
do_request-returns =
    do_request-dispatch read_pdu client peer refl peer-IsIdle (omega arith) (omega arith)
      (omega arith) (omega arith)
    ∙ check_response_ok link read_pdu (3 ∷ 2 ∷ 0 ∷ 42 ∷ []) 0 (record client { tx_id = 65536 })
        (omega arith) refl refl

do_request_ok_example :
    (1 ≤ 4)
    × (4 ≤ max_pdu)
    × (at (3 ∷ 2 ∷ 0 ∷ 42 ∷ []) 0 ≡ at read_pdu 0)
    × (as_exception (3 ∷ 2 ∷ 0 ∷ 42 ∷ []) ≡ none)
    × ((record client { tx_id = 65536 }).tx_id ≡ (client.tx_id + 1) % 2 ^ 32)
do_request_ok_example =
    do_request_ok link read_pdu (3 ∷ 2 ∷ 0 ∷ 42 ∷ []) client (record client { tx_id = 65536 })
      do_request-returns

do_request-dispatch_example :
    do_request link read_pdu client
    ≡ check_response link read_pdu
        (dispatch plant read_pdu).0
        (u16 (tx_of client))
        (after_call client peer read_pdu)
do_request-dispatch_example =
    do_request-dispatch read_pdu client peer refl peer-IsIdle (omega arith) (omega arith)
      (answered.0) (answered.1)
  where
    answered : (1 ≤ length (dispatch plant read_pdu).0) × (length (dispatch plant read_pdu).0 ≤ 253)
    answered = let fits = dispatch-Fits plant read_pdu in (omega (arith, fits), omega (arith, fits))

-- The same client after its peer has closed.
abbrev closed_client : Client Peer
closed_client = record client { conn = some (record peer { is_open = false }) }

-- Nothing is left to be read on it.
abbrev IsGone : Peer → Type 0
IsGone k = (k.is_open ≡ false) × (k.outbound ≡ [])

link-IsLoss : IsLoss link IsGone
unfolding link_write link_read_full
link-IsLoss = record {
  write_lost = λ k b gone. ground (arith, gone);
  read_fails = λ k n least gone. (eof, ground (arith, least, gone));
  read_lost = λ k n gone. ground (arith, gone);
}

do_requests-fail_example :
    All (Failed link) (do_requests link (read_pdu ∷ read_pdu ∷ []) closed_client)
do_requests-fail_example =
    do_requests-fail link IsGone link-IsLoss (read_pdu ∷ read_pdu ∷ []) closed_client
      (record peer { is_open = false }, refl, (refl, refl))
