-- ===== src/Mock/Listener/Closing.antt =====
-- `Close` of internal/mock/server.go: it returns once the goroutines of all connections have.
use otcat.Base.{
  ℕ, zero, suc, ◌+◌, ◌*◌, ◌≤◌, ◌<◌, true, false, List, [], ◌∷◌, length, ◌≡◌, refl, ◌∙◌, arith,
}
use otcat.Mock.Listener.{
  closed, Conn, Listener, set_conn, accept, close, Event, accepts, arrives, ends, runs, closes,
  happen, happen_all, is_closed, all_closed, close_returns,
}
use otcat.Mock.Listener.Turns.{turns_of, is_quiet, runs_listening, runs_accepted, happen_all-closed}

happen-accepted :
    (e : Event) (l : Listener)
    → l.is_listening ≡ false
    → ((happen e l).is_listening ≡ false) × ((happen e l).accepted ≡ l.accepted)
unfolding happen accept close set_conn
happen-accepted accepts l h = ground (arith, h)
happen-accepted (arrives j b) l h = (h, refl)
happen-accepted (ends j) l h = (h, refl)
happen-accepted (runs j sends) l h = (runs_listening j sends l ∙ h, runs_accepted j sends l)
happen-accepted closes l h = (refl, refl)

happen_all-accepted :
    (es : List Event) (l : Listener)
    → l.is_listening ≡ false
    → ((happen_all es l).is_listening ≡ false) × ((happen_all es l).accepted ≡ l.accepted)
unfolding happen_all
happen_all-accepted [] l h = (h, refl)
happen_all-accepted (e ∷ es) l h =
    let (still, same) = happen-accepted e l h in
    let (still, all_same) = happen_all-accepted es (happen e l) still in (still, all_same ∙ same)

all_closed-of :
    (n : ℕ) (conns : ℕ → Conn)
    → ((i : ℕ) → i < n → (conns i).phase ≡ closed)
    → all_closed n conns ≡ true
unfolding all_closed is_closed
all_closed-of zero conns h = refl
all_closed-of (suc n) conns h =
    let last = h n (omega arith) in
    let rest = all_closed-of n conns (λ i l. h i (omega (arith, l))) in rw (last, rest) refl

-- What `Close` waits for happens, behind a closed listener and once every client has closed its side:
-- every connection has returned when each has had three turns for each byte that it has left and three
-- more, in whatever order, where no bytes come any more.
pub happen_all-close_returns :
    (es : List Event) (l : Listener)
    → l.is_listening ≡ false
    → ((i : ℕ) → i < l.accepted → (l.conns i).is_ended ≡ true)
    → ((i : ℕ) → i < l.accepted → is_quiet i es ≡ true)
    → ((i : ℕ) → i < l.accepted → 3 * length (l.conns i).inbound + 3 ≤ turns_of i es)
    → close_returns (happen_all es l) ≡ true
unfolding close_returns
happen_all-close_returns es l shut ended quiet enough =
    let (still, same) = happen_all-accepted es l shut in
    rw (still, same)
      (all_closed-of l.accepted (happen_all es l).conns
        (λ i has. happen_all-closed es i l has (ended i has) (quiet i has) (enough i has)))
