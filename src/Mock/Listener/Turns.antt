-- ===== src/Mock/Listener/Turns.antt =====
-- The turns that a connection of internal/mock/server.go needs until `handle` returns, once its client has
-- closed its side.
use otcat.Base.{
  inr, inl, ◌≢◌, ℕ, ◌+◌, ◌-◌, ◌*◌, ◌≤◌, ◌<◌, Bool, true, false, List, [], ◌∷◌, ltb, ◌==◌, length,
  take, drop, if◌then◌else◌, ◌≡◌, refl, arith, Bool-cases, length-drop,
}
use native.Mathlib.Decide.{ℕ_discrete}
use otcat.Base.Bytes.{uint16}
use otcat.Mock.Server.{update}
use otcat.Mock.Listener.{
  Phase, reading, deciding, dispatching, closed, Conn, Listener, set_conn, accept, close,
  read_request, decide, respond, advance, Event, accepts, arrives, ends, runs, closes, happen,
  happen_all,
}

-- Turns that are left until a connection whose client has closed it returns, at most.
unfoldable pub turns_left : Phase → ℕ → ℕ
turns_left reading n = 3 * n + 1
turns_left (deciding r) n = 3 * n + 3
turns_left (dispatching r) n = 3 * n + 2
turns_left closed n = 0

abbrev pub left : Conn → ℕ
left c = turns_left c.phase (length c.inbound)

-- The turns that connection `i` gets.
unfoldable pub turns_of : ℕ → List Event → ℕ
turns_of i [] = 0
turns_of i (accepts ∷ es) = turns_of i es
turns_of i (arrives j b ∷ es) = turns_of i es
turns_of i (ends j ∷ es) = turns_of i es
turns_of i (runs j sends ∷ es) = (if i == j then 1 else 0) + turns_of i es
turns_of i (closes ∷ es) = turns_of i es

-- No bytes come on connection `i`.
unfoldable pub is_quiet : ℕ → List Event → Bool
is_quiet i [] = true
is_quiet i (accepts ∷ es) = is_quiet i es
is_quiet i (arrives j b ∷ es) = let rest = is_quiet i es in if i == j then false else rest
is_quiet i (ends j ∷ es) = is_quiet i es
is_quiet i (runs j sends ∷ es) = is_quiet i es
is_quiet i (closes ∷ es) = is_quiet i es

-- `t` turns on the way from one connection to a later state of it, its client having closed it.
abbrev Nears : ℕ → Conn → Conn → Type 0
Nears t c c' = (c'.is_ended ≡ true) × (left c' ≤ left c - t)

set_conn_self : (i : ℕ) (c : Conn) (l : Listener) → update l.conns i c i ≡ c
set_conn_self i c l = ground arith

read_request-Nears : (c : Conn) → c.phase ≡ reading → c.is_ended ≡ true → Nears 1 c (read_request c)
unfolding read_request turns_left
read_request-Nears c h e = (
  ground (arith, e),
  ground (
    arith,
    h,
    length-drop 7 c.inbound,
    length-drop (uint16 (take 7 c.inbound) 4 - 1) (drop 7 c.inbound),
  ),
)

advance-Nears :
    (ph : Phase) (sends : Bool) (i : ℕ) (l : Listener)
    → (l.conns i).phase ≡ ph
    → (l.conns i).is_ended ≡ true
    → Nears 1 (l.conns i) ((advance ph sends i (l.conns i) l).conns i)
unfolding advance turns_left set_conn respond decide
advance-Nears reading sends i l h e =
    rw (set_conn_self i (read_request (l.conns i)) l) (read_request-Nears (l.conns i) h e)
advance-Nears (deciding r) sends i l h e = go l.drops
  where
    go : (ds : List Bool) → Nears 1 (l.conns i) ((decide ds i (l.conns i) r l).conns i)
    go [] =
        rw (set_conn_self i (record (l.conns i) { phase = dispatching r }) l)
          (e, rw h (omega arith))
    go (d ∷ ds) =
        rw (set_conn_self i (record (l.conns i) { phase = if d then closed else dispatching r }) l)
          (e, rw h (ground arith))
advance-Nears (dispatching r) sends i l h e = ground (arith, h, e)
advance-Nears closed sends i l h e = (e, rw h (omega arith))

advance_other :
    (ph : Phase) (sends : Bool) (i j : ℕ) (l : Listener)
    → i ≢ j
    → (advance ph sends j (l.conns j) l).conns i ≡ l.conns i
unfolding advance set_conn respond decide
advance_other reading sends i j l n = ground arith
advance_other (deciding r) sends i j l n = go l.drops
  where
    go : (ds : List Bool) → (decide ds j (l.conns j) r l).conns i ≡ l.conns i
    go [] = ground arith
    go (d ∷ ds) = ground arith
advance_other (dispatching r) sends i j l n = ground arith
advance_other closed sends i j l n = refl

advance_accepted :
    (ph : Phase) (sends : Bool) (i : ℕ) (c : Conn) (l : Listener)
    → (advance ph sends i c l).accepted ≡ l.accepted
unfolding advance set_conn respond decide
advance_accepted reading sends i c l = refl
advance_accepted (deciding r) sends i c l = go l.drops
  where
    go : (ds : List Bool) → (decide ds i c r l).accepted ≡ l.accepted
    go [] = refl
    go (d ∷ ds) = refl
advance_accepted (dispatching r) sends i c l = refl
advance_accepted closed sends i c l = refl

runs_self :
    (i : ℕ) (sends : Bool) (l : Listener)
    → i < l.accepted
    → (l.conns i).is_ended ≡ true
    → Nears 1 (l.conns i) ((happen (runs i sends) l).conns i)
unfolding happen
runs_self i sends l has ended =
    let ready : ltb i l.accepted ≡ true = ground (arith, has) in
    rw ready (advance-Nears (l.conns i).phase sends i l refl ended)

runs_other :
    (i j : ℕ) (sends : Bool) (l : Listener) → i ≢ j → (happen (runs j sends) l).conns i ≡ l.conns i
unfolding happen
runs_other i j sends l n = elim (Bool-cases (ltb j l.accepted)) [
  | inl has ↦ rw has (advance_other (l.conns j).phase sends i j l n)
  | inr lacks ↦ rw lacks refl
]

advance_listening :
    (ph : Phase) (sends : Bool) (i : ℕ) (c : Conn) (l : Listener)
    → (advance ph sends i c l).is_listening ≡ l.is_listening
unfolding advance set_conn respond decide
advance_listening reading sends i c l = refl
advance_listening (deciding r) sends i c l = go l.drops
  where
    go : (ds : List Bool) → (decide ds i c r l).is_listening ≡ l.is_listening
    go [] = refl
    go (d ∷ ds) = refl
advance_listening (dispatching r) sends i c l = refl
advance_listening closed sends i c l = refl

pub runs_listening :
    (j : ℕ) (sends : Bool) (l : Listener) → (happen (runs j sends) l).is_listening ≡ l.is_listening
unfolding happen
runs_listening j sends l = elim (Bool-cases (ltb j l.accepted)) [
  | inl has ↦ rw has (advance_listening (l.conns j).phase sends j (l.conns j) l)
  | inr lacks ↦ rw lacks refl
]

pub runs_accepted :
    (j : ℕ) (sends : Bool) (l : Listener) → (happen (runs j sends) l).accepted ≡ l.accepted
unfolding happen
runs_accepted j sends l = elim (Bool-cases (ltb j l.accepted)) [
  | inl has ↦ rw has (advance_accepted (l.conns j).phase sends j (l.conns j) l)
  | inr lacks ↦ rw lacks refl
]

happen-Nears :
    (e : Event) (i : ℕ) (l : Listener)
    → i < l.accepted
    → (l.conns i).is_ended ≡ true
    → is_quiet i (e ∷ []) ≡ true
    → (l.accepted ≤ (happen e l).accepted)
      × Nears (turns_of i (e ∷ [])) (l.conns i) ((happen e l).conns i)
unfolding happen set_conn accept close is_quiet turns_of turns_left
happen-Nears accepts i l has ended quiet = ground (arith, ended)
happen-Nears (arrives j b) i l has ended quiet = ground (arith, ended, quiet)
happen-Nears (ends j) i l has ended quiet = ground (arith, ended)
happen-Nears (runs j sends) i l has ended quiet = (
  omega (arith, runs_accepted j sends l),
  elim (ℕ_discrete i j) [
    | yes e ↦
        let (still, nearer) = runs_self i sends l has ended in
        let one : turns_of i (runs i sends ∷ []) ≡ 1 = ground arith in
        rw (← e) (still, rw one nearer)
    | no n ↦ rw (runs_other i j sends l n) (ended, ground (arith, n))
  ],
)
happen-Nears closes i l has ended quiet = ground (arith, ended)

left_none : (c : Conn) → left c ≤ 0 → c.phase ≡ closed
unfolding turns_left
left_none c h = go c.phase h
  where
    go : (ph : Phase) → turns_left ph (length c.inbound) ≤ 0 → ph ≡ closed
    go reading h = absurd (omega (arith, h))
    go (deciding r) h = absurd (omega (arith, h))
    go (dispatching r) h = absurd (omega (arith, h))
    go closed h = refl

turns_of-cons :
    (i : ℕ) (e : Event) (es : List Event)
    → turns_of i (e ∷ es) ≡ turns_of i (e ∷ []) + turns_of i es
unfolding turns_of
turns_of-cons i accepts es = omega arith
turns_of-cons i (arrives j b) es = omega arith
turns_of-cons i (ends j) es = omega arith
turns_of-cons i (runs j sends) es = ground arith
turns_of-cons i closes es = omega arith

is_quiet-cons :
    (i : ℕ) (e : Event) (es : List Event)
    → is_quiet i (e ∷ es) ≡ true
    → (is_quiet i (e ∷ []) ≡ true) × (is_quiet i es ≡ true)
unfolding is_quiet
is_quiet-cons i accepts es h = (refl, h)
is_quiet-cons i (arrives j b) es h = ground (arith, h)
is_quiet-cons i (ends j) es h = (refl, h)
is_quiet-cons i (runs j sends) es h = (refl, h)
is_quiet-cons i closes es h = (refl, h)

left-le : (ph : Phase) (n : ℕ) → turns_left ph n ≤ 3 * n + 3
unfolding turns_left
left-le reading n = omega arith
left-le (deciding r) n = omega arith
left-le (dispatching r) n = omega arith
left-le closed n = omega arith

returns :
    (es : List Event) (i : ℕ) (l : Listener)
    → i < l.accepted
    → (l.conns i).is_ended ≡ true
    → is_quiet i es ≡ true
    → left (l.conns i) ≤ turns_of i es
    → ((happen_all es l).conns i).phase ≡ closed
unfolding happen_all turns_of
returns [] i l has ended quiet enough = left_none (l.conns i) enough
returns (e ∷ es) i l has ended quiet enough =
    let (now, later) = is_quiet-cons i e es quiet in
    let (more, (still, nearer)) = happen-Nears e i l has ended now in
    returns es i (happen e l) (omega (arith, has, more)) still later
      (omega (arith, enough, nearer, turns_of-cons i e es))

-- The goroutine of a connection whose client has closed it returns, once it has had three turns for each
-- byte that is left and three more.
pub happen_all-closed :
    (es : List Event) (i : ℕ) (l : Listener)
    → i < l.accepted
    → (l.conns i).is_ended ≡ true
    → is_quiet i es ≡ true
    → 3 * length (l.conns i).inbound + 3 ≤ turns_of i es
    → ((happen_all es l).conns i).phase ≡ closed
happen_all-closed es i l has ended quiet enough =
    returns es i l has ended quiet
      (omega (arith, left-le (l.conns i).phase (length (l.conns i).inbound), enough))
