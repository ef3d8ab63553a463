-- ===== src/Cliapp/Args.antt =====
-- `FlagSet.Parse` of Go's flag package, which internal/cliapp/flags.go reads the command line with: over
-- a table of flags, each with the variable that it sets in a state `C`.
pub mod Loop
pub mod Append
use otcat.Base.{
  ℕ, zero, suc, Bool, true, false, not, ◌&&◌, ◌||◌, Option, some, none, List, [], ◌∷◌, ltb, ◌==◌,
  if◌then◌else◌, length, Text, codes,
}
use otcat.Base.Int.{ℤ}
use otcat.Base.Numbers.{parse_uint_base0}
use otcat.Base.Strings.{text_eq, one_of}

-- A flag's variable, by the kind of its value.
pub data Flag (C : Type 0) : Type 0 where
  string_var : (Text → C → C) → Flag C
  bool_var : (Bool → C → C) → Flag C
  uint_var : (ℕ → C → C) → Flag C
  duration_var : (ℤ → C → C) → Flag C

pub data FlagError : Type 0 where
  bad_syntax : Text → FlagError
  not_defined : Text → FlagError
  help_requested : FlagError
  needs_argument : Text → FlagError
  invalid_value : Text → Text → FlagError
  csv_and_raw : FlagError

-- What one call of `parseOne` does: it ends the flags and leaves the other arguments, it fails, or it
-- sets a flag and leaves the arguments behind it.
pub data Step (C : Type 0) : Type 0 where
  finished : List Text → C → Step C
  failed : FlagError → Step C
  seen : List Text → C → Step C

-- `strconv.ParseBool`
unfoldable pub parse_bool : Text → Option Bool
parse_bool s =
    if one_of s
      (codes "1" ∷ codes "t" ∷ codes "T" ∷ codes "true" ∷ codes "TRUE" ∷ codes "True" ∷ [])
    then some true
    else if one_of s
        (codes "0" ∷ codes "f" ∷ codes "F" ∷ codes "false" ∷ codes "FALSE" ∷ codes "False" ∷ [])
    then some false
    else none

-- The name and the value of `name=value`: the first '=' behind the first character.
unfoldable pub cut_value : Text → Text × Option Text
cut_value [] = ([], none)
cut_value (c ∷ s) =
    let (name, value) = cut_value s in if c == b'=' then ([], some s) else (c ∷ name, value)

unfoldable pub name_and_value : Text → Text × Option Text
name_and_value [] = ([], none)
name_and_value (c ∷ s) = let (name, value) = cut_value s in (c ∷ name, value)

unfoldable pub find_flag {ℓ} : {A : Type ℓ} → Text → List (Text × A) → Option A
find_flag name [] = none
find_flag name (entry ∷ entries) =
    if text_eq name entry.0 then some entry.1 else find_flag name entries

module _ {C : Type 0} (parse_duration : Text → Option ℤ) where
  -- `Value.Set`; `none` is its error.
  unfoldable pub set_flag : Flag C → Text → C → Option C
  set_flag (string_var put) s c = some (put s c)
  set_flag (bool_var put) s c = elim (parse_bool s) [ none ↦ none | some b ↦ some (put b c) ]
  set_flag (uint_var put) s c = elim (parse_uint_base0 s 64) [
    | none ↦ none
    | some n ↦ some (put n c)
  ]
  set_flag (duration_var put) s c = elim (parse_duration s) [
    | none ↦ none
    | some d ↦ some (put d c)
  ]

  -- The call of `Set` with the error of its caller.
  unfoldable pub assign : Text → Flag C → Text → List Text → C → Step C
  assign name flag value args c = elim (set_flag flag value c) [
    | none ↦ failed (invalid_value value name)
    | some c' ↦ seen args c'
  ]

  -- A Boolean flag needs no value; another takes the next argument where none is given.
  unfoldable pub set_seen : Text → Flag C → Option Text → List Text → C → Step C
  set_seen name (bool_var put) none args c = assign name (bool_var put) (codes "true") args c
  set_seen name flag (some value) args c = assign name flag value args c
  set_seen name flag none [] c = failed (needs_argument name)
  set_seen name flag none (value ∷ args) c = assign name flag value args c

  unfoldable pub named : List (Text × Flag C) → Text → Option Text → List Text → C → Step C
  named table name value args c = elim (find_flag name table) [
    | some flag ↦ set_seen name flag value args c
    | none ↦
        if one_of name (codes "help" ∷ codes "h" ∷ [])
        then failed help_requested
        else failed (not_defined name)
  ]

  -- The argument behind its dashes.
  unfoldable pub undashed : List (Text × Flag C) → Text → Text → List Text → C → Step C
  undashed table arg [] args c = failed (bad_syntax arg)
  undashed table arg (d ∷ name) args c =
      if d == b'-' || d == b'='
      then failed (bad_syntax arg)
      else let (name, value) = name_and_value (d ∷ name) in named table name value args c

  unfoldable pub parse_one : List (Text × Flag C) → List Text → C → Step C
  parse_one table [] c = finished [] c
  parse_one table ([] ∷ args) c = finished ([] ∷ args) c
  parse_one table ((d ∷ []) ∷ args) c = finished ((d ∷ []) ∷ args) c
  parse_one table ((d ∷ e ∷ s) ∷ args) c =
      if not (d == b'-')
      then finished ((d ∷ e ∷ s) ∷ args) c
      else if not (e == b'-')
      then undashed table (d ∷ e ∷ s) (e ∷ s) args c
      else if length s == 0
      then finished args c
      else undashed table (d ∷ e ∷ s) s args c

  -- `FlagSet.Parse`: `none` where the fuel is used up.
  unfoldable pub parse_loop : ℕ → List (Text × Flag C) → List Text → C → Option (Step C)
  parse_loop zero table args c = none
  parse_loop (suc n) table args c = elim (parse_one table args c) [
    | finished rest c' ↦ some (finished rest c')
    | failed e ↦ some (failed e)
    | seen rest c' ↦ parse_loop n table rest c'
  ]

  -- Every call but the last takes an argument at least.
  unfoldable pub parse_all : List (Text × Flag C) → List Text → C → Option (Step C)
  parse_all table args c = parse_loop (suc (length args)) table args c
