-- ===== src/Mock/Connection/Segments.antt =====
-- `handle` of internal/mock/server.go on a byte stream: its loop ends, and how the stream is cut into
-- segments makes no difference.
use otcat.Base.{
  ℕ, zero, suc, ◌+◌, ◌-◌, ◌≤◌, ◌≡◌, refl, ap, ◌∙◌, sym, true, false, some, none, List, [], ◌∷◌,
  ◌++◌, append_assoc, append-nil, length, length-append, arith, ◌⊎◌, inl, inr, Option-cases,
  Bool-cases,
}
use otcat.Base.Bytes.{Bytes}
use otcat.Mock.Connection.{Peer, handle_round, handle}
use otcat.Mock.Connection.Rounds.{
  arrive, round-shorter, round-arrive, handle_closed, handle_waits, handle_goes_on, round_needs,
  handle_empty,
}

-- The loop until it waits or has closed the connection.
unfoldable pub settle : Peer → Peer
settle k = handle (length k.inbound) k

handle-fuel :
    (n m : ℕ) (k : Peer) → length k.inbound ≤ n → length k.inbound ≤ m → handle n k ≡ handle m k
handle-fuel zero m k h l = handle_empty zero k (omega arith) ∙ sym (handle_empty m k (omega arith))
handle-fuel (suc n) zero k h l =
    handle_empty (suc n) k (omega arith) ∙ sym (handle_empty zero k (omega arith))
handle-fuel (suc n) (suc m) k h l = elim (Bool-cases k.is_open) [
  | inr closed ↦ handle_closed (suc n) k closed ∙ sym (handle_closed (suc m) k closed)
  | inl opened ↦ elim (Option-cases (handle_round k)) [
    | inl waits ↦ handle_waits (suc n) k waits ∙ sym (handle_waits (suc m) k waits)
    | inr (k', goes) ↦
        handle_goes_on n k k' opened goes
        ∙ elim (round-shorter k k' goes) [
          | inl less ↦ handle-fuel n m k' (omega arith) (omega arith)
          | inr closed ↦ handle_closed n k' closed ∙ sym (handle_closed m k' closed)
        ]
        ∙ sym (handle_goes_on m k k' opened goes)
  ]
]

-- The loop has ended: the connection is closed, or waits for bytes.
abbrev pub IsSettled : Peer → Type 0
IsSettled k = (k.is_open ≡ false) ⊎ (handle_round k ≡ none)

handle-IsSettled : (n : ℕ) (k : Peer) → length k.inbound ≤ n → IsSettled (handle n k)
handle-IsSettled zero k h = elim (Option-cases (handle_round k)) [
  | inl waits ↦ rw (handle_waits zero k waits) (inr waits)
  | inr (k', goes) ↦ absurd (omega (arith, h, round_needs k k' goes))
]
handle-IsSettled (suc n) k h = elim (Bool-cases k.is_open) [
  | inr closed ↦ rw (handle_closed (suc n) k closed) (inl closed)
  | inl opened ↦ elim (Option-cases (handle_round k)) [
    | inl waits ↦ rw (handle_waits (suc n) k waits) (inr waits)
    | inr (k', goes) ↦ rw (handle_goes_on n k k' opened goes) (elim (round-shorter k k' goes) [
      | inl less ↦ handle-IsSettled n k' (omega arith)
      | inr closed ↦ rw (handle_closed n k' closed) (inl closed)
    ])
  ]
]

same-settle : (n : ℕ) (k : Peer) → length k.inbound ≤ n → handle n k ≡ settle k
unfolding settle
same-settle n k h = handle-fuel n (length k.inbound) k h (omega arith)

-- As many rounds as bytes have arrived are enough for the loop: behind them the connection is closed or
-- waits for bytes, and more rounds leave the same state.
pub handle-settle :
    (n : ℕ) (k : Peer) → length k.inbound ≤ n → (handle n k ≡ settle k) × IsSettled (settle k)
unfolding settle
handle-settle n k h = (same-settle n k h, handle-IsSettled (length k.inbound) k (omega arith))

-- A round is part of settling, with any bytes behind it.
settle_round :
    (b : Bytes) (k k' : Peer)
    → k.is_open ≡ true
    → handle_round k ≡ some k'
    → settle (arrive b k) ≡ settle (arrive b k')
unfolding settle
settle_round b k k' opened goes =
    ap (λ n. handle n (arrive b k)) fuel
    ∙ handle_goes_on a (arrive b k) (arrive b k') opened (round-arrive b k k' goes)
    ∙ elim (round-shorter k k' goes) [
      | inl less ↦ same-settle a (arrive b k') (omega (arith, length-append k'.inbound b))
      | inr closed ↦
          handle_closed a (arrive b k') closed
          ∙ sym (handle_closed (length (k'.inbound ++ b)) (arrive b k') closed)
    ]
  where
    a : ℕ
    a = length k.inbound + length b - 1

    fuel : length (k.inbound ++ b) ≡ suc a
    fuel = omega (arith, length-append k.inbound b, round_needs k k' goes)

settle-handle :
    (n : ℕ) (b : Bytes) (k : Peer) → settle (arrive b (handle n k)) ≡ settle (arrive b k)
settle-handle zero b k = unfold handle in refl
settle-handle (suc n) b k = elim (Bool-cases k.is_open) [
  | inr closed ↦ ap (λ p. settle (arrive b p)) (handle_closed (suc n) k closed)
  | inl opened ↦ elim (Option-cases (handle_round k)) [
    | inl waits ↦ ap (λ p. settle (arrive b p)) (handle_waits (suc n) k waits)
    | inr (k', goes) ↦
        ap (λ p. settle (arrive b p)) (handle_goes_on n k k' opened goes)
        ∙ settle-handle n b k'
        ∙ sym (settle_round b k k' opened goes)
  ]
]

-- The state once segments have arrived one after the other, the loop settling in between.
unfoldable pub receive_all : List Bytes → Peer → Peer
receive_all [] k = k
receive_all (b ∷ bs) k = receive_all bs (settle (arrive b k))

unfoldable pub concat : List Bytes → Bytes
concat [] = []
concat (b ∷ bs) = b ++ concat bs

receive_all-settle :
    (bs : List Bytes) (k : Peer) → receive_all bs (settle k) ≡ settle (arrive (concat bs) k)
unfolding receive_all concat settle
receive_all-settle [] k = ap (λ x. settle (record k { inbound = x })) (sym (append-nil k.inbound))
receive_all-settle (b ∷ bs) k =
    ap (receive_all bs) (settle-handle (length k.inbound) b k)
    ∙ receive_all-settle bs (arrive b k)
    ∙ ap (λ x. settle (record k { inbound = x })) (append_assoc k.inbound b (concat bs))

-- However a byte stream is cut into segments: once they have all arrived, with the loop of the connection
-- settling in between or not, server, answers and connection are the same, for one segment at least.
pub receive_all-concat :
    (b : Bytes) (bs : List Bytes) (k : Peer)
    → receive_all (b ∷ bs) k ≡ settle (arrive (concat (b ∷ bs)) k)
unfolding receive_all concat
receive_all-concat b bs k =
    receive_all-settle bs (arrive b k)
    ∙ ap (λ x. settle (record k { inbound = x })) (append_assoc k.inbound b (concat bs))
