-- ===== src/Cliapp/Args/Loop.antt =====
-- The loop of `FlagSet.Parse` ends, and reads the arguments one flag after the other.
use otcat.Base.{
  ℕ, zero, suc, ◌<◌, ◌≤◌, ◌≡◌, refl, ap, ◌∙◌, sym, ◌||◌, Option, some, List, [], ◌∷◌, ◌==◌, length,
  Text, arith, Bool-cases, Option-cases, inl, inr,
}
use otcat.Base.Int.{ℤ}
use otcat.Cliapp.Args.{
  Flag, string_var, bool_var, uint_var, duration_var, Step, finished, failed, seen, name_and_value,
  find_flag, assign, set_seen, named, undashed, parse_one, parse_loop, parse_all,
}

module _ {C : Type 0} (parse_duration : Text → Option ℤ) (table : List (Text × Flag C)) where
  assign-shorter :
      (name : Text) (flag : Flag C) (value : Text) (args rest : List Text) (c c' : C)
      → assign parse_duration name flag value args c ≡ seen rest c'
      → length rest ≤ length args
  unfolding assign
  assign-shorter name flag value args rest c c' h = ground (arith, h)

  set_seen-shorter :
      (name : Text) (flag : Flag C) (value : Option Text) (args rest : List Text) (c c' : C)
      → set_seen parse_duration name flag value args c ≡ seen rest c'
      → length rest ≤ length args
  unfolding set_seen assign
  set_seen-shorter name (bool_var put) value args rest c c' h = ground (arith, h)
  set_seen-shorter name (string_var put) value args rest c c' h = ground (arith, h)
  set_seen-shorter name (uint_var put) value args rest c c' h = ground (arith, h)
  set_seen-shorter name (duration_var put) value args rest c c' h = ground (arith, h)

  undashed-shorter :
      (arg name : Text) (args rest : List Text) (c c' : C)
      → undashed parse_duration table arg name args c ≡ seen rest c'
      → length rest ≤ length args
  unfolding undashed named
  undashed-shorter arg [] args rest c c' h = absurd (ground (arith, h))
  undashed-shorter arg (d ∷ name) args rest c c' h = elim (Bool-cases (d == b'-' || d == b'=')) [
    | inl bad ↦ absurd (ground (arith, h, bad))
    | inr good ↦ elim (Option-cases (find_flag (name_and_value (d ∷ name)).0 table)) [
      | inl n ↦ absurd (ground (arith, h, good, n))
      | inr (flag, found) ↦
          set_seen-shorter (name_and_value (d ∷ name)).0 flag (name_and_value (d ∷ name)).1 args
            rest c c' (ground (arith, h, good, found))
    ]
  ]

  pub parse_one-shorter :
      (args rest : List Text) (c c' : C)
      → parse_one parse_duration table args c ≡ seen rest c'
      → length rest < length args
  unfolding parse_one
  parse_one-shorter [] rest c c' h = absurd (ground (arith, h))
  parse_one-shorter ([] ∷ args) rest c c' h = absurd (ground (arith, h))
  parse_one-shorter ((d ∷ []) ∷ args) rest c c' h = absurd (ground (arith, h))
  parse_one-shorter ((d ∷ e ∷ s) ∷ args) rest c c' h = ground (
    arith,
    h,
    undashed-shorter (d ∷ e ∷ s) (e ∷ s) args rest c c',
    undashed-shorter (d ∷ e ∷ s) s args rest c c',
  )

  abbrev pub after : ℕ → Step C → Option (Step C)
  after n (finished rest c) = some (finished rest c)
  after n (failed e) = some (failed e)
  after n (seen rest c) = parse_loop parse_duration n table rest c

  pub loop_step :
      (n : ℕ) (args : List Text) (c : C)
      → parse_loop parse_duration (suc n) table args c
        ≡ after n (parse_one parse_duration table args c)
  unfolding parse_loop
  loop_step n args c =
      elim (parse_one parse_duration table args c)
        as (λ r.
          elim r [
            | finished rest c' ↦ some (finished rest c')
            | failed e ↦ some (failed e)
            | seen rest c' ↦ parse_loop parse_duration n table rest c'
          ]
          ≡ after n r) [ finished rest c' ↦ refl | failed e ↦ refl | seen rest c' ↦ refl ]

  -- More fuel than arguments is enough, and how much more does not matter.
  parse_loop-fuel :
      (n m : ℕ) (args : List Text) (c : C)
      → length args < n
      → length args < m
      → parse_loop parse_duration n table args c ≡ parse_loop parse_duration m table args c
  parse_loop-fuel zero m args c h k = absurd (omega arith)
  parse_loop-fuel (suc n) zero args c h k = absurd (omega arith)
  parse_loop-fuel (suc n) (suc m) args c h k =
      loop_step n args c
      ∙ go (parse_one parse_duration table args c) refl (λ rest c'. parse_loop-fuel n m rest c')
      ∙ sym (loop_step m args c)
    where
      go :
          (r : Step C)
          → parse_one parse_duration table args c ≡ r
          → ((rest : List Text) (c' : C)
              → length rest < n
              → length rest < m
              → parse_loop parse_duration n table rest c'
                ≡ parse_loop parse_duration m table rest c')
          → after n r ≡ after m r
      go (finished rest c') e more = refl
      go (failed f) e more = refl
      go (seen rest c') e more =
          let l = parse_one-shorter args rest c c' e in more rest c' (omega arith) (omega arith)

  abbrev pub IsEnd : Step C → Type 0
  IsEnd (finished rest c) = Unit
  IsEnd (failed e) = Unit
  IsEnd (seen rest c) = ⊥

  parse_loop-some :
      (n : ℕ) (args : List Text) (c : C)
      → length args < n
      → (r : Step C) × IsEnd r × (parse_loop parse_duration n table args c ≡ some r)
  parse_loop-some zero args c h = absurd (omega arith)
  parse_loop-some (suc n) args c h =
      let (r, ended, e) =
        go (parse_one parse_duration table args c) refl (λ rest c'. parse_loop-some n rest c') in
      (r, ended, loop_step n args c ∙ e)
    where
      go :
          (r : Step C)
          → parse_one parse_duration table args c ≡ r
          → ((rest : List Text) (c' : C)
              → length rest < n
              → (r : Step C) × IsEnd r × (parse_loop parse_duration n table rest c' ≡ some r))
          → (t : Step C) × IsEnd t × (after n r ≡ some t)
      go (finished rest c') e more = (finished rest c', tt, refl)
      go (failed f) e more = (failed f, tt, refl)
      go (seen rest c') e more =
          let l = parse_one-shorter args rest c c' e in more rest c' (omega arith)

  -- Whatever the arguments, the loop ends: with the flags read or with an error.
  pub parse_all-some :
      (args : List Text) (c : C)
      → (r : Step C) × IsEnd r × (parse_all parse_duration table args c ≡ some r)
  unfolding parse_all
  parse_all-some args c = parse_loop-some (suc (length args)) args c (omega arith)

  -- A flag that is read leaves the arguments behind it to be read.
  pub parse_all-seen :
      (args rest : List Text) (c c' : C)
      → parse_one parse_duration table args c ≡ seen rest c'
      → parse_all parse_duration table args c ≡ parse_all parse_duration table rest c'
  unfolding parse_all
  parse_all-seen args rest c c' e =
      let l = parse_one-shorter args rest c c' e in
      loop_step (length args) args c
      ∙ ap (after (length args)) e
      ∙ parse_loop-fuel (length args) (suc (length rest)) rest c' (omega arith) (omega arith)

  -- The arguments behind the flags are left alone.
  pub parse_all-finished :
      (args rest : List Text) (c c' : C)
      → parse_one parse_duration table args c ≡ finished rest c'
      → parse_all parse_duration table args c ≡ some (finished rest c')
  unfolding parse_all
  parse_all-finished args rest c c' e = loop_step (length args) args c ∙ ap (after (length args)) e
