-- ===== src/Cliapp/Args/Append.antt =====
-- Arguments behind those that `FlagSet.Parse` has read.
use otcat.Base.{
  ◌≢◌, ℕ, suc, ◌≡◌, refl, ap, ◌∙◌, sym, ◌||◌, Option, some, List, [], ◌∷◌, ◌++◌, ◌==◌, length, Text,
  arith, Bool-cases, Option-cases, inl, inr, ◌≢◌, zero,
}
use otcat.Base.Int.{ℤ}
use otcat.Cliapp.Args.{
  Flag, string_var, bool_var, uint_var, duration_var, Step, finished, failed, seen, name_and_value,
  find_flag, assign, set_seen, named, undashed, parse_one, parse_loop, parse_all,
}
use otcat.Cliapp.Args.Loop.{after, loop_step, parse_all-seen, parse_all-finished}

-- An argument that ends the flags: it is empty, a single character, or does not start with a dash.
abbrev pub IsPositional : Text → Type 0
IsPositional [] = Unit
IsPositional (d ∷ []) = Unit
IsPositional (d ∷ e ∷ s) = d ≢ b'-'

module _ {C : Type 0} (parse_duration : Text → Option ℤ) (table : List (Text × Flag C)) where
  set_seen-append :
      (name : Text) (flag : Flag C) (value : Option Text) (args rest more : List Text) (c c' : C)
      → set_seen parse_duration name flag value args c ≡ seen rest c'
      → set_seen parse_duration name flag value (args ++ more) c ≡ seen (rest ++ more) c'
  unfolding set_seen assign
  set_seen-append name (bool_var put) value args rest more c c' h = ground (arith, h)
  set_seen-append name (string_var put) value args rest more c c' h = ground (arith, h)
  set_seen-append name (uint_var put) value args rest more c c' h = ground (arith, h)
  set_seen-append name (duration_var put) value args rest more c c' h = ground (arith, h)

  undashed-append :
      (arg name : Text) (args rest more : List Text) (c c' : C)
      → undashed parse_duration table arg name args c ≡ seen rest c'
      → undashed parse_duration table arg name (args ++ more) c ≡ seen (rest ++ more) c'
  unfolding undashed named
  undashed-append arg [] args rest more c c' h = absurd (ground (arith, h))
  undashed-append arg (d ∷ name) args rest more c c' h =
      elim (Bool-cases (d == b'-' || d == b'=')) [
        | inl bad ↦ absurd (ground (arith, h, bad))
        | inr good ↦ elim (Option-cases (find_flag (name_and_value (d ∷ name)).0 table)) [
          | inl n ↦ absurd (ground (arith, h, good, n))
          | inr (flag, found) ↦ ground (
            arith,
            good,
            found,
            set_seen-append (name_and_value (d ∷ name)).0 flag (name_and_value (d ∷ name)).1 args
                rest more c c' (ground (arith, h, good, found)),
          )
        ]
      ]

  set_seen_ends :
      (name : Text) (flag : Flag C) (value : Option Text) (args : List Text) (c : C)
      (rest : List Text) (c' : C)
      → set_seen parse_duration name flag value args c ≢ finished rest c'
  unfolding set_seen assign
  set_seen_ends name (bool_var put) value args c rest c' h = ground (arith, h)
  set_seen_ends name (string_var put) value args c rest c' h = ground (arith, h)
  set_seen_ends name (uint_var put) value args c rest c' h = ground (arith, h)
  set_seen_ends name (duration_var put) value args c rest c' h = ground (arith, h)

  -- Behind its dashes an argument never ends the flags.
  pub undashed_ends :
      (arg name : Text) (args : List Text) (c : C) (rest : List Text) (c' : C)
      → undashed parse_duration table arg name args c ≢ finished rest c'
  unfolding undashed named
  undashed_ends arg [] args c rest c' h = ground (arith, h)
  undashed_ends arg (d ∷ name) args c rest c' h = elim (Bool-cases (d == b'-' || d == b'=')) [
    | inl bad ↦ ground (arith, h, bad)
    | inr good ↦ elim (Option-cases (find_flag (name_and_value (d ∷ name)).0 table)) [
      | inl n ↦ ground (arith, h, good, n)
      | inr (flag, found) ↦
          set_seen_ends (name_and_value (d ∷ name)).0 flag (name_and_value (d ∷ name)).1 args c rest
            c' (ground (arith, h, good, found))
    ]
  ]

  parse_one-append :
      (args rest more : List Text) (c c' : C)
      → parse_one parse_duration table args c ≡ seen rest c'
      → parse_one parse_duration table (args ++ more) c ≡ seen (rest ++ more) c'
  unfolding parse_one
  parse_one-append [] rest more c c' h = absurd (ground (arith, h))
  parse_one-append ([] ∷ args) rest more c c' h = absurd (ground (arith, h))
  parse_one-append ((d ∷ []) ∷ args) rest more c c' h = absurd (ground (arith, h))
  parse_one-append ((d ∷ e ∷ s) ∷ args) rest more c c' h = ground (
    arith,
    h,
    undashed-append (d ∷ e ∷ s) (e ∷ s) args rest more c c',
    undashed-append (d ∷ e ∷ s) s args rest more c c',
  )

  parse_one-positional :
      (s : Text) (rest : List Text) (c : C)
      → IsPositional s
      → parse_one parse_duration table (s ∷ rest) c ≡ finished (s ∷ rest) c
  unfolding parse_one
  parse_one-positional [] rest c h = refl
  parse_one-positional (d ∷ []) rest c h = refl
  parse_one-positional (d ∷ e ∷ s) rest c h = ground (arith, h)

  parse_one-ended :
      (args : List Text) (s : Text) (rest : List Text) (c c' : C)
      → IsPositional s
      → parse_one parse_duration table args c ≡ finished [] c'
      → parse_one parse_duration table (args ++ (s ∷ rest)) c ≡ finished (s ∷ rest) c'
  unfolding parse_one
  parse_one-ended [] s rest c c' h e =
      let q : c ≡ c' = ground (arith, e) in
      parse_one-positional s rest c h ∙ ap (finished (s ∷ rest)) q
  parse_one-ended ([] ∷ args) s rest c c' h e = absurd (ground (arith, e))
  parse_one-ended ((d ∷ []) ∷ args) s rest c c' h e = absurd (ground (arith, e))
  parse_one-ended ((d ∷ f ∷ t) ∷ args) s rest c c' h e = ground (
    arith,
    e,
    undashed_ends (d ∷ f ∷ t) (f ∷ t) args c [] c',
    undashed_ends (d ∷ f ∷ t) t args c [] c',
  )

  loop-positional :
      (n : ℕ) (args : List Text) (s : Text) (rest : List Text) (c c' : C)
      → IsPositional s
      → parse_loop parse_duration n table args c ≡ some (finished [] c')
      → parse_all parse_duration table (args ++ (s ∷ rest)) c ≡ some (finished (s ∷ rest) c')
  unfolding parse_loop
  loop-positional zero args s rest c c' h e = absurd (ground (arith, e))
  loop-positional (suc n) args s rest c c' h e =
      go (parse_one parse_duration table args c) refl
        (sym (loop_step parse_duration table n args c) ∙ e)
        (λ r k. loop-positional n r s rest k c' h)
    where
      go :
          (r : Step C)
          → parse_one parse_duration table args c ≡ r
          → after parse_duration table n r ≡ some (finished [] c')
          → ((r : List Text) (k : C)
              → parse_loop parse_duration n table r k ≡ some (finished [] c')
              → parse_all parse_duration table (r ++ (s ∷ rest)) k ≡ some (finished (s ∷ rest) c'))
          → parse_all parse_duration table (args ++ (s ∷ rest)) c ≡ some (finished (s ∷ rest) c')
      go (finished r k) p q more =
          let same : finished r k ≡ finished [] c' = ground (arith, q) in
          parse_all-finished parse_duration table (args ++ (s ∷ rest)) (s ∷ rest) c c'
            (parse_one-ended args s rest c c' h (p ∙ same))
      go (failed f) p q more = absurd (ground (arith, q))
      go (seen r k) p q more =
          parse_all-seen parse_duration table (args ++ (s ∷ rest)) (r ++ (s ∷ rest)) c k
            (parse_one-append args r (s ∷ rest) c k p)
          ∙ more r k q

  -- Where flags are read to the end of the arguments, a positional argument behind them ends the flags,
  -- and what follows it is left alone, flags included.
  pub parse_all-positional :
      (args : List Text) (s : Text) (rest : List Text) (c c' : C)
      → IsPositional s
      → parse_all parse_duration table args c ≡ some (finished [] c')
      → parse_all parse_duration table (args ++ (s ∷ rest)) c ≡ some (finished (s ∷ rest) c')
  unfolding parse_all
  parse_all-positional args s rest c c' h e =
      loop-positional (suc (length args)) args s rest c c' h e
