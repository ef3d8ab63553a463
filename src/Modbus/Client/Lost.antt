-- ===== src/Modbus/Client/Lost.antt =====
-- `do` of internal/modbus/client.go on a connection that is lost: the client never dials again.
use otcat.Base.{
  ◌+◌, ◌%◌, ◌^◌, ◌++◌, length, ◌⊎◌, inl, inr, Option-cases, ℕ, ◌≤◌, ◌≡◌, some, List, [], ◌∷◌, All,
  arith,
}
use otcat.Base.Bytes.{Bytes, u16}
use otcat.Errors.{
  deadline_failed, write_failed, read_header_failed, Error, NetError, failed, Result, err,
}
use otcat.Modbus.Mbap.{mbap_len, encode_mbap, protocol_id}
use otcat.Modbus.Transport.{Transport}
use otcat.Modbus.Client.{Client, next_tx_id, check_deadline, send, receive, do_request}

module _ (t : Transport) where
  open t use {Conn, set_deadline, write, read_full}

  -- States of a connection from which nothing is read any more: whatever is written, and whether the write
  -- fails or not, a read of at least one byte fails, and so does every later one.
  pub record IsLoss (Lost : Conn → Type 0) : Type 0 where
    pub write_lost : (k : Conn) (b : Bytes) → Lost k → Lost (write k b).1
    pub read_fails :
        (k : Conn) (n : ℕ) → 1 ≤ n → Lost k → (e : NetError) × ((read_full k n).0 ≡ failed e)
    pub read_lost : (k : Conn) (n : ℕ) → Lost k → Lost (read_full k n).1

  -- The client has a connection in such a state.
  abbrev pub HasLost : (Conn → Type 0) → Client Conn → Type 0
  HasLost Lost c = (k : Conn) × (c.conn ≡ some k) × Lost k

  abbrev pub Failed : Result Bytes → Type 0
  Failed r = (e : Error) × (r ≡ err e)

  -- The results of requests made one after the other.
  unfoldable pub do_requests : List Bytes → Client Conn → List (Result Bytes)
  do_requests [] c = []
  do_requests (pdu ∷ pdus) c = let (r, c') = do_request t pdu c in r ∷ do_requests pdus c'

  -- The frame that `do` writes.
  abbrev frame_of : Client Conn → Bytes → Bytes
  frame_of c pdu =
      encode_mbap (record {
        transaction_id = (c.tx_id + 1) % 2 ^ 32 % 2 ^ 16;
        protocol_id = protocol_id;
        length = u16 (length pdu + 1);
        unit_id = c.unit_id;
      })
      ++ pdu

  -- How far `do` comes on such a connection.
  do_request_cases :
      (pdu : Bytes) (c : Client Conn) (k : Conn)
      → c.conn ≡ some k
      → (e : NetError) → (read_full (write k (frame_of c pdu)).1 mbap_len).0 ≡ failed e
      → Failed (do_request t pdu c).0
        × (((do_request t pdu c).1.conn ≡ some k)
            ⊎ ((do_request t pdu c).1.conn ≡ some (write k (frame_of c pdu)).1)
            ⊎ ((do_request t pdu c).1.conn
                ≡ some (read_full (write k (frame_of c pdu)).1 mbap_len).1))
  unfolding do_request check_deadline next_tx_id send receive
  do_request_cases pdu c k same e fails = elim (Option-cases (set_deadline k)) [
    | inr (d, late) ↦
        ((deadline_failed d, ground (arith, same, late)), inl (ground (arith, same, late)))
    | inl calm ↦ elim (Option-cases (write k (frame_of c pdu)).0) [
      | inr (w, breaks) ↦ (
        (write_failed w, ground (arith, same, calm, breaks)),
        inr (inl (ground (arith, same, calm, breaks))),
      )
      | inl sent ↦ (
        (read_header_failed e, ground (arith, same, calm, sent, fails)),
        inr (inr (ground (arith, same, calm, sent, fails))),
      )
    ]
  ]

  do_request-HasLost :
      (Lost : Conn → Type 0) (loss : IsLoss Lost) (pdu : Bytes) (c : Client Conn)
      → HasLost Lost c
      → Failed (do_request t pdu c).0 × HasLost Lost (do_request t pdu c).1
  do_request-HasLost Lost loss pdu c (k, same, lost) =
      let k' = (write k (frame_of c pdu)).1 in
      let lost' : Lost k' = loss.write_lost k (frame_of c pdu) lost in
      let (e, fails) = loss.read_fails k' mbap_len (omega arith) lost' in
      let (no_answer, where_to) = do_request_cases pdu c k same e fails in
      (
        no_answer,
        elim where_to [
          | inl old ↦ (k, old, lost)
          | inr (inl wrote) ↦ (k', wrote, lost')
          | inr (inr got) ↦ ((read_full k' mbap_len).1, got, loss.read_lost k' mbap_len lost')
        ],
      )

  -- Over any transport, with states of a connection that a write does not leave and in which every read of
  -- at least one byte fails and leaves such a state: a client whose connection is in one fails every request
  -- from then on, however many are made, so no error makes it dial again.
  pub do_requests-fail :
      (Lost : Conn → Type 0) (loss : IsLoss Lost) (pdus : List Bytes) (c : Client Conn)
      → HasLost Lost c
      → All Failed (do_requests pdus c)
  unfolding do_requests
  do_requests-fail Lost loss [] c h = tt
  do_requests-fail Lost loss (pdu ∷ pdus) c h =
      let (fails, still) = do_request-HasLost Lost loss pdu c h in
      (fails, do_requests-fail Lost loss pdus (do_request t pdu c).1 still)
