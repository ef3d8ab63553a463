-- ===== src/Runs/Listeners.antt =====
-- The accept loop of internal/mock/server.go at concrete inputs: a client that sends a request and closes
-- its side.
use otcat.Base.{ℕ, zero, suc, ◌+◌, ◌*◌, ◌<◌, ◌≤◌, ◌≡◌, refl, true, List, [], ◌∷◌, length, arith}
use otcat.Base.Bytes.{Bytes}
use otcat.Mock.Listener.{
  set_conn, close, accept, happen, Listener, Event, accepts, arrives, ends, runs, closes,
  happen_all, new_listener, close_returns,
}
use otcat.Mock.Listener.Turns.{turns_of, is_quiet}
use otcat.Mock.Listener.Closing.{happen_all-close_returns}
use otcat.Runs.Wire.{plant}

-- Register 10 set to 5.
abbrev set_request : Bytes
set_request = 0 ∷ 9 ∷ 0 ∷ 0 ∷ 0 ∷ 6 ∷ 1 ∷ 6 ∷ 0 ∷ 10 ∷ 0 ∷ 5 ∷ []

abbrev shut : Listener
shut = happen_all (accepts ∷ arrives 0 set_request ∷ ends 0 ∷ closes ∷ []) (new_listener plant [])

unfoldable turns : ℕ → List Event
turns zero = []
turns (suc n) = runs 0 true ∷ turns n

first_only : (i : ℕ) → i < 1 → i ≡ 0
first_only i h = omega arith

still_ended : (i : ℕ) → i < shut.accepted → (shut.conns i).is_ended ≡ true
unfolding happen_all happen accept close set_conn new_listener
still_ended i h = ground arith

no_more : (i : ℕ) (n : ℕ) → is_quiet i (turns n) ≡ true
unfolding turns is_quiet
no_more i zero = refl
no_more i (suc n) = no_more i n

turns-turns_of : (n : ℕ) → turns_of 0 (turns n) ≡ n
unfolding turns turns_of
turns-turns_of zero = refl
turns-turns_of (suc n) = omega (arith, turns-turns_of n)

enough : (i : ℕ) → i < shut.accepted → 3 * length (shut.conns i).inbound + 3 ≤ turns_of i (turns 39)
unfolding happen_all happen accept close set_conn new_listener
enough i h = rw (first_only i h) (omega (arith, turns-turns_of 39))

happen_all-close_returns_example : close_returns (happen_all (turns 39) shut) ≡ true
unfolding happen_all happen accept close set_conn new_listener
happen_all-close_returns_example =
    happen_all-close_returns (turns 39) shut refl still_ended (λ i h. no_more i 39) enough
