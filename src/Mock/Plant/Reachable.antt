-- ===== src/Mock/Plant/Reachable.antt =====
-- What holds of internal/mock in every state that the goroutines of cmd/otcat-mockplc/main.go reach.
use otcat.Base.{
  refl, sym, if◌then◌else◌, sym, subst, ℕ, ◌<◌, ◌^◌, ◌≡◌, Bool, true, false, some, arith,
}
use otcat.Mock.Server.{Server}
use otcat.Mock.Server.Invariant.{IsValid, dispatch-IsValid}
use otcat.Mock.Server.Setup.{set_holding, set_input, set_coil, set_discrete, set_holding_range}
use otcat.Mock.Process.{
  Float64, IsFloat64, TankProcess, new_tank_process, set_setpoint, step, percent_x100,
}
use otcat.Mock.Plant.{
  new_server, seed, Plant, start, measured, Step, request, holding_set, input_set, coil_set,
  discrete_set, setpoint_set, drive_steps, drive_measures, drive_publishes, drive_stops, Reach,
  here, next,
}

set_holding-IsValid : (i v : ℕ) (s : Server) → v < 2 ^ 16 → IsValid s → IsValid (set_holding i v s)
unfolding set_holding
set_holding-IsValid i v s h valid = record {
  holding_words = λ j. ground (arith, valid.holding_words j);
  input_words = valid.input_words;
}

set_input-IsValid : (i v : ℕ) (s : Server) → v < 2 ^ 16 → IsValid s → IsValid (set_input i v s)
unfolding set_input
set_input-IsValid i v s h valid = record {
  holding_words = valid.holding_words;
  input_words = λ j. ground (arith, valid.input_words j);
}

set_coil-IsValid : (i : ℕ) (v : Bool) (s : Server) → IsValid s → IsValid (set_coil i v s)
unfolding set_coil
set_coil-IsValid i v s valid = record {
  holding_words = valid.holding_words;
  input_words = valid.input_words;
}

set_discrete-IsValid : (i : ℕ) (v : Bool) (s : Server) → IsValid s → IsValid (set_discrete i v s)
unfolding set_discrete
set_discrete-IsValid i v s valid = record {
  holding_words = valid.holding_words;
  input_words = valid.input_words;
}

new_server-IsValid : IsValid new_server
new_server-IsValid = record { holding_words = λ j. omega arith; input_words = λ j. omega arith }

seed-IsValid : (s : Server) → seed new_server ≡ some s → IsValid s
unfolding seed set_holding_range
seed-IsValid s e =
    let seeded = set_coil-IsValid 0 true _ (
      set_holding-IsValid 201 0x0FDB _ (omega arith) (
        set_holding-IsValid 200 0x4049 _ (omega arith)
          (set_holding-IsValid 100 0x1234 new_server (omega arith) new_server-IsValid))) in
    let same : set_coil 0 true
          (set_holding 201 0x0FDB (set_holding 200 0x4049 (set_holding 100 0x1234 new_server)))
        ≡ s =
      ground (arith, e) in
    subst IsValid same seeded

module _ (f : Float64) (laws : IsFloat64 f) where
  open f use {F, lit, mul, div, round, lt, to_uint16}

  -- The conversion of a number from 0 to 65535, on which Go gives `uint16` a meaning.
  abbrev pub IsConverted : ℕ → Type 0
  IsConverted v =
      (x : F) × (v ≡ to_uint16 x) × (lt x (lit 0 0) ≡ false) × (lt (lit 65535 0) x ≡ false)

  -- The server's words fit, the level is not below zero, and a value that is measured and not yet
  -- published is the percentage of the level as it still is, converted in range.
  pub record IsSound (p : Plant f) : Type 0 where
    pub valid : IsValid p.server
    pub level : lt p.process.level (lit 0 0) ≡ false
    pub pending : (v : ℕ) → p.drive ≡ measured v → (v ≡ percent_x100 f p.process) × IsConverted v

  step_level : (p : TankProcess f) → lt (step f p).level (lit 0 0) ≡ false
  unfolding step
  step_level p = ground (arith, laws.lit_not_below 0 0)

  percent_x100-lt : (p : TankProcess f) → percent_x100 f p < 2 ^ 16
  unfolding percent_x100
  percent_x100-lt p = laws.to_uint16-lt _

  -- Two clamps, one after the other.
  abbrev clamped : F → F
  clamped v =
      let v = if lt v (lit 0 0) then lit 0 0 else v in if lt (lit 65535 0) v then lit 65535 0 else v

  clamped_range :
      (v : F) → (lt (clamped v) (lit 0 0) ≡ false) × (lt (lit 65535 0) (clamped v) ≡ false)
  clamped_range v = ground (
    arith,
    laws.lit_not_below 0 0,
    laws.lit_not_below 65535 0,
    laws.not_below_itself (lit 65535 0),
  )

  percent_x100-IsConverted : (p : TankProcess f) → IsConverted (percent_x100 f p)
  unfolding percent_x100
  percent_x100-IsConverted p = (
    clamped (round (mul (mul (div p.level p.full_scale) (lit 1000 1)) (lit 100 0))),
    refl,
    (clamped_range (round (mul (mul (div p.level p.full_scale) (lit 1000 1)) (lit 100 0)))).0,
    (clamped_range (round (mul (mul (div p.level p.full_scale) (lit 1000 1)) (lit 100 0)))).1,
  )

  start-IsSound : (s : Server) → IsValid s → IsSound (start f s)
  unfolding new_tank_process
  start-IsSound s v = record {
    valid = v;
    level = laws.lit_not_below 5 1;
    pending = λ v e. absurd (ground (arith, e));
  }

  Step-IsSound : (addr : ℕ) {p q : Plant f} → Step f addr p q → IsSound p → IsSound q
  unfolding set_setpoint percent_x100
  Step-IsSound addr (request p pdu h) i = record {
    valid = dispatch-IsValid p.server pdu h i.valid;
    level = i.level;
    pending = i.pending;
  }
  Step-IsSound addr (holding_set p j v h) i = record {
    valid = set_holding-IsValid j v p.server h i.valid;
    level = i.level;
    pending = i.pending;
  }
  Step-IsSound addr (input_set p j v h) i = record {
    valid = set_input-IsValid j v p.server h i.valid;
    level = i.level;
    pending = i.pending;
  }
  Step-IsSound addr (coil_set p j v) i = record {
    valid = set_coil-IsValid j v p.server i.valid;
    level = i.level;
    pending = i.pending;
  }
  Step-IsSound addr (discrete_set p j v) i = record {
    valid = set_discrete-IsValid j v p.server i.valid;
    level = i.level;
    pending = i.pending;
  }
  Step-IsSound addr (setpoint_set p m) i = record {
    valid = i.valid;
    level = i.level;
    pending = i.pending;
  }
  Step-IsSound addr (drive_steps p h) i = record {
    valid = i.valid;
    level = step_level p.process;
    pending = λ v e. absurd (ground (arith, e));
  }
  Step-IsSound addr (drive_measures p h) i = record {
    valid = i.valid;
    level = i.level;
    pending = λ v e.
        let same : percent_x100 f p.process ≡ v = ground (arith, e) in
        (sym same, subst IsConverted same (percent_x100-IsConverted p.process));
  }
  Step-IsSound addr (drive_publishes p v h) i = record {
    valid =
        set_holding-IsValid addr v p.server (rw ((i.pending v h).0) (percent_x100-lt p.process))
          i.valid;
    level = i.level;
    pending = λ v e. absurd (ground (arith, e));
  }
  Step-IsSound addr (drive_stops p h) i = record {
    valid = i.valid;
    level = i.level;
    pending = λ v e. absurd (ground (arith, e));
  }

  pub Reach-IsSound : (addr : ℕ) {p q : Plant f} → IsSound p → Reach f addr p q → IsSound q
  Reach-IsSound addr i here = i
  Reach-IsSound addr i (next r s) = Step-IsSound addr s (Reach-IsSound addr i r)

  -- Where no constant of the float64 is below zero, no number is below itself and a uint16 has 16 bits:
  -- from the seeded server and the new process on, however requests of bytes, setters and the driving
  -- goroutine interleave: the words in the server's register tables fit 16 bits; the tank's level is not
  -- below zero; and a value on its way to the driven register is the percentage of the level as it still is,
  -- converted to uint16 from a number that is not below 0 and not above 65535.
  pub plant-IsSound :
      (addr : ℕ) (s : Server) (p : Plant f)
      → seed new_server ≡ some s
      → Reach f addr (start f s) p
      → IsSound p
  plant-IsSound addr s p e r = Reach-IsSound addr (start-IsSound s (seed-IsValid s e)) r
