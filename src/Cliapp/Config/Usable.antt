-- ===== src/Cliapp/Config/Usable.antt =====
-- The command lines that `validate` lets through.
use otcat.Base.{
  refl, inr, ◌⊎◌, inl, ◌≢◌, [], ◌∷◌, Text, List, ◌≤◌, ◌≡◌, ◌↔◌, true, false, not, none, arith,
}
use otcat.Cliapp.Config.{
  count_non_empty, Config, given, positive, endpoints, actions, validate_write, validate_rest,
  validate,
}

-- None of the flags is given a text, and exactly one of them is.
abbrev pub NoneGiven : List Text → Type 0
NoneGiven [] = Unit {0}
NoneGiven (s ∷ ss) = (s ≡ []) × NoneGiven ss

abbrev pub OneGiven : List Text → Type 0
OneGiven [] = ⊥
OneGiven (s ∷ ss) = ((s ≢ []) × NoneGiven ss) ⊎ ((s ≡ []) × OneGiven ss)

-- A usable command line, flag by flag.
pub record IsUsable (c : Config) : Type 0 where
  pub one_endpoint : OneGiven (c.modbus_addr ∷ c.eip_addr ∷ c.s7_addr ∷ c.bacnet_addr ∷ [])
  pub one_action : OneGiven (c.read_spec ∷ c.watch_spec ∷ c.write_spec ∷ [])
  pub one_source : given c.write_spec ≡ true → c.from_stdin ≡ not (given c.value)
  pub only_write :
      given c.write_spec ≡ false
      → (given c.value ≡ false) × (c.from_stdin ≡ false) × (c.dry_run ≡ false) × (c.confirm ≡ false)
  pub timeout : positive c.timeout ≡ true
  pub interval : given c.watch_spec ≡ true → positive c.interval ≡ true
  pub unit : c.unit_id ≤ 255

-- The same with the counts of the code.
record IsCounted (c : Config) : Type 0 where
  pub one_endpoint : endpoints c ≡ 1
  pub one_action : actions c ≡ 1
  pub one_source : given c.write_spec ≡ true → c.from_stdin ≡ not (given c.value)
  pub only_write :
      given c.write_spec ≡ false
      → (given c.value ≡ false) × (c.from_stdin ≡ false) × (c.dry_run ≡ false) × (c.confirm ≡ false)
  pub timeout : positive c.timeout ≡ true
  pub interval : given c.watch_spec ≡ true → positive c.interval ≡ true
  pub unit : c.unit_id ≤ 255

none_given : (ss : List Text) → count_non_empty ss ≡ 0 → NoneGiven ss
unfolding count_non_empty
none_given [] h = tt
none_given ([] ∷ ss) h = (refl, none_given ss h)
none_given ((c ∷ s) ∷ ss) h = absurd (omega (arith, h))

one_given : (ss : List Text) → count_non_empty ss ≡ 1 → OneGiven ss
unfolding count_non_empty
one_given [] h = absurd (omega (arith, h))
one_given ([] ∷ ss) h = inr (refl, one_given ss h)
one_given ((c ∷ s) ∷ ss) h = inl ((λ e. ground (arith, e)), none_given ss (omega (arith, h)))

count-NoneGiven : (ss : List Text) → NoneGiven ss → count_non_empty ss ≡ 0
unfolding count_non_empty
count-NoneGiven [] h = refl
count-NoneGiven ([] ∷ ss) (e, rest) = count-NoneGiven ss rest
count-NoneGiven ((c ∷ s) ∷ ss) (e, rest) = absurd (ground (arith, e))

count-OneGiven : (ss : List Text) → OneGiven ss → count_non_empty ss ≡ 1
unfolding count_non_empty
count-OneGiven [] h = absurd h
count-OneGiven ([] ∷ ss) (inl (n, rest)) = absurd (n refl)
count-OneGiven ([] ∷ ss) (inr (e, rest)) = count-OneGiven ss rest
count-OneGiven ((c ∷ s) ∷ ss) (inl (n, rest)) = omega (arith, count-NoneGiven ss rest)
count-OneGiven ((c ∷ s) ∷ ss) (inr (e, rest)) = absurd (ground (arith, e))

-- A usable command line has one action by the code's count too.
pub actions_one : (c : Config) → IsUsable c → actions c ≡ 1
actions_one c u = count-OneGiven _ u.one_action

counted : (c : Config) → validate c ≡ none → IsCounted c
unfolding validate validate_write validate_rest
counted c h = ground arith

passes : (c : Config) → IsCounted c → validate c ≡ none
unfolding validate validate_write validate_rest
passes c u = ground arith

IsCounted-IsUsable : (c : Config) → IsCounted c → IsUsable c
IsCounted-IsUsable c u = record {
  one_endpoint = one_given _ u.one_endpoint;
  one_action = one_given _ u.one_action;
  one_source = u.one_source;
  only_write = u.only_write;
  timeout = u.timeout;
  interval = u.interval;
  unit = u.unit;
}

IsUsable-IsCounted : (c : Config) → IsUsable c → IsCounted c
IsUsable-IsCounted c u = record {
  one_endpoint = count-OneGiven _ u.one_endpoint;
  one_action = actions_one c u;
  one_source = u.one_source;
  only_write = u.only_write;
  timeout = u.timeout;
  interval = u.interval;
  unit = u.unit;
}

-- `validate` passes a command line exactly if one of the four endpoint flags and one of the three action
-- flags has a text and the others of them have none; a write has a value or reads stdin, not both; without
-- a write there is no value, no stdin, no dry run and no confirmation; the timeout is positive, and the
-- interval too for a watch; and the unit is at most 255.
pub validate_iff : (c : Config) → (validate c ≡ none) ↔ IsUsable c
validate_iff c =
    ((λ h. IsCounted-IsUsable c (counted c h)), (λ u. passes c (IsUsable-IsCounted c u)))
