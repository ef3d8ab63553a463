-- ===== src/Mock/Connection/Rounds.antt =====
-- One round of the loop in `handle` of internal/mock/server.go: what it has read, and that bytes behind
-- its request change nothing.
use otcat.Base.{
  length-drop, take-append, drop-append, ℕ, zero, suc, ◌+◌, ◌-◌, ◌≤◌, ◌<◌, ◌≡◌, refl, ap, ◌∙◌, true,
  false, some, none, ◌++◌, length, length-append, take, drop, arith, ◌⊎◌, inl, inr, Option-cases,
}
use otcat.Base.Bytes.{Bytes, at, uint16}
use otcat.Mock.Connection.{Peer, should_drop, next_drop, answer, handle_round, handle}

-- Bytes that reach the server.
abbrev pub arrive : Bytes → Peer → Peer
arrive b k = record k { inbound = k.inbound ++ b }

-- The length that the header of the first request gives.
abbrev asked : Bytes → ℕ
asked b = uint16 (take 7 b) 4

answer_inbound : (k : Peer) (tx unit : ℕ) (pdu : Bytes) → (answer k tx unit pdu).inbound ≡ k.inbound
unfolding answer should_drop next_drop
answer_inbound k tx unit pdu = ground arith

answer-arrive :
    (b : Bytes) (k : Peer) (tx unit : ℕ) (pdu : Bytes)
    → answer (arrive b k) tx unit pdu ≡ arrive b (answer k tx unit pdu)
unfolding answer should_drop next_drop
answer-arrive b k tx unit pdu = ground arith

-- The state behind the answer to the first request.
abbrev served : Peer → Peer
served k =
    answer (record k { inbound = drop (asked k.inbound - 1) (drop 7 k.inbound) })
      (uint16 (take 7 k.inbound) 0) (at (take 7 k.inbound) 6)
      (take (asked k.inbound - 1) (drop 7 k.inbound))

-- What a round has seen: a whole header, and an empty request or a whole one.
abbrev Happens : Peer → Peer → Type 0
Happens k k' =
    (7 ≤ length k.inbound)
    × (((asked k.inbound < 2) × (record k { is_open = false } ≡ k'))
        ⊎ ((2 ≤ asked k.inbound)
            × (asked k.inbound - 1 ≤ length (drop 7 k.inbound))
            × (served k ≡ k')))

round-Happens : (k k' : Peer) → handle_round k ≡ some k' → Happens k k'
unfolding handle_round
round-Happens k k' h = ground (arith, h)

Happens-round : (k k' : Peer) → Happens k k' → handle_round k ≡ some k'
unfolding handle_round
Happens-round k k' (full, inl (short, e)) = ground (arith, full, short, e)
Happens-round k k' (full, inr (long, whole, e)) = ground (arith, full, long, whole, e)

-- A round takes a byte at least, or closes the connection.
pub round-shorter :
    (k k' : Peer)
    → handle_round k ≡ some k'
    → (length k'.inbound < length k.inbound) ⊎ (k'.is_open ≡ false)
round-shorter k k' h = go (round-Happens k k' h)
  where
    go : Happens k k' → (length k'.inbound < length k.inbound) ⊎ (k'.is_open ≡ false)
    go (full, inl (short, e)) = inr (rw (← e) refl)
    go (full, inr (long, whole, e)) = inl (
        rw (← e) (
          rw
            (answer_inbound (record k { inbound = drop (asked k.inbound - 1) (drop 7 k.inbound) })
              (uint16 (take 7 k.inbound) 0) (at (take 7 k.inbound) 6)
              (take (asked k.inbound - 1) (drop 7 k.inbound)))
            (omega (
              arith,
              length-drop (asked k.inbound - 1) (drop 7 k.inbound),
              length-drop 7 k.inbound,
            ))))

served-arrive :
    (b : Bytes) (k : Peer)
    → 7 ≤ length k.inbound
    → asked k.inbound - 1 ≤ length (drop 7 k.inbound)
    → served (arrive b k) ≡ arrive b (served k)
served-arrive b k full whole =
    rw
      (
        take-append 7 k.inbound b full,
        drop-append 7 k.inbound b full,
        drop-append (asked k.inbound - 1) (drop 7 k.inbound) b whole,
        take-append (asked k.inbound - 1) (drop 7 k.inbound) b whole,
      )
      (answer-arrive b (record k { inbound = drop (asked k.inbound - 1) (drop 7 k.inbound) })
        (uint16 (take 7 k.inbound) 0) (at (take 7 k.inbound) 6)
        (take (asked k.inbound - 1) (drop 7 k.inbound)))

-- A round does the same whatever stands behind its request.
pub round-arrive :
    (b : Bytes) (k k' : Peer)
    → handle_round k ≡ some k'
    → handle_round (arrive b k) ≡ some (arrive b k')
round-arrive b k k' h = Happens-round (arrive b k) (arrive b k') (go (round-Happens k k' h))
  where
    go : Happens k k' → Happens (arrive b k) (arrive b k')
    go (full, what) =
        let longer = length-append k.inbound b in
        let same : asked (k.inbound ++ b) ≡ asked k.inbound =
          ap (λ t. uint16 t 4) (take-append 7 k.inbound b full) in
        let behind : length (drop 7 (k.inbound ++ b)) ≡ length (drop 7 k.inbound) + length b =
          rw (drop-append 7 k.inbound b full) (length-append (drop 7 k.inbound) b) in
        (
          omega (arith, full, longer),
          elim what [
            | inl (short, e) ↦ inl (rw same short, ap (arrive b) e)
            | inr (long, whole, e) ↦ inr (
              rw same long,
              omega (arith, same, behind, whole),
              served-arrive b k full whole ∙ ap (arrive b) e,
            )
          ],
        )

pub handle_closed : (n : ℕ) (k : Peer) → k.is_open ≡ false → handle n k ≡ k
unfolding handle
handle_closed zero k h = refl
handle_closed (suc n) k h = ground (arith, h)

pub handle_waits : (n : ℕ) (k : Peer) → handle_round k ≡ none → handle n k ≡ k
unfolding handle
handle_waits zero k h = refl
handle_waits (suc n) k h = ground (arith, h)

pub handle_goes_on :
    (n : ℕ) (k k' : Peer)
    → k.is_open ≡ true
    → handle_round k ≡ some k'
    → handle (suc n) k ≡ handle n k'
unfolding handle
handle_goes_on n k k' o h = ground (arith, o, h)

-- One round happens only on a byte at least.
pub round_needs : (k k' : Peer) → handle_round k ≡ some k' → 1 ≤ length k.inbound
round_needs k k' h = let (full, what) = round-Happens k k' h in omega (arith, full)

pub handle_empty : (n : ℕ) (k : Peer) → length k.inbound ≡ 0 → handle n k ≡ k
handle_empty n k h = elim (Option-cases (handle_round k)) [
  | inl waits ↦ handle_waits n k waits
  | inr (k', goes) ↦ absurd (omega (arith, h, round_needs k k' goes))
]
