-- ===== src/Cliapp/Parse/Silent.antt =====
-- Arguments that do not name --confirm, read by the flags of internal/cliapp/flags.go.
use otcat.Base.{
  subst, ◌≡◌, ◌≢◌, ◌∙◌, inl, inr, ◌||◌, Option, some, none, List, [], ◌∷◌, ◌==◌, Text, codes, All,
  arith, Option-cases, Bool-cases,
}
use otcat.Base.Int.{ℤ}
use otcat.Base.Numbers.{parse_uint_base0}
use otcat.Cliapp.Args.{parse_bool}
use otcat.Cliapp.Args.{
  parse_bool, Flag, string_var, bool_var, uint_var, duration_var, seen, name_and_value, find_flag,
  set_flag, assign, set_seen, named, undashed, parse_one,
}
use otcat.Cliapp.Parse.{Vars, flag_table}
use otcat.Cliapp.Parse.Keeps.{
  IsUnconfirmed, Keeps, find_flag-Keeps, flag_table-entries, two_dashes, one_dash, flag_name,
  IsSilent,
}

module _ (parse_duration : Text → Option ℤ) where
  put-Keeps :
      {A : Type 0} (o : Option A) (put : A → Vars → Vars) (c c' : Vars)
      → ((a : A) → IsUnconfirmed (put a c))
      → elim o [ none ↦ none | some a ↦ some (put a c) ] ≡ some c'
      → IsUnconfirmed c'
  put-Keeps none put c c' h e = absurd (ground (arith, e))
  put-Keeps (some a) put c c' h e =
      let q : put a c ≡ c' = ground (arith, e) in subst IsUnconfirmed q (h a)

  set_flag-Keeps :
      (flag : Flag Vars) (s : Text) (c c' : Vars)
      → Keeps flag
      → IsUnconfirmed c
      → set_flag parse_duration flag s c ≡ some c'
      → IsUnconfirmed c'
  unfolding set_flag
  set_flag-Keeps (string_var put) s c c' k h e =
      let q : put s c ≡ c' = ground (arith, e) in subst IsUnconfirmed q (k s c h)
  set_flag-Keeps (bool_var put) s c c' k h e = put-Keeps (parse_bool s) put c c' (λ a. k a c h) e
  set_flag-Keeps (uint_var put) s c c' k h e =
      put-Keeps (parse_uint_base0 s 64) put c c' (λ a. k a c h) e
  set_flag-Keeps (duration_var put) s c c' k h e =
      put-Keeps (parse_duration s) put c c' (λ a. k a c h) e

  -- What a step that sets a flag leaves: silent arguments, and no confirmation.
  abbrev pub Leaves : List Text → Vars → Type 0
  Leaves rest c = All IsSilent rest × IsUnconfirmed c

  assign-Leaves :
      (name : Text) (flag : Flag Vars) (value : Text) (args rest : List Text) (c c' : Vars)
      → Keeps flag
      → Leaves args c
      → assign parse_duration name flag value args c ≡ seen rest c'
      → Leaves rest c'
  unfolding assign
  assign-Leaves name flag value args rest c c' k h e =
      elim (Option-cases (set_flag parse_duration flag value c)) [
        | inl n ↦ absurd (ground (arith, e, n))
        | inr (c1, q) ↦
            let put : c1 ≡ c' = ground (arith, e, q) in
            let left : args ≡ rest = ground (arith, e, q) in
            (
              subst (All IsSilent) left h.0,
              subst IsUnconfirmed put (set_flag-Keeps flag value c c1 k h.1 q),
            )
      ]

  set_seen-Leaves :
      (name : Text) (flag : Flag Vars) (value : Option Text) (args rest : List Text) (c c' : Vars)
      → Keeps flag
      → Leaves args c
      → set_seen parse_duration name flag value args c ≡ seen rest c'
      → Leaves rest c'
  unfolding set_seen
  set_seen-Leaves name (bool_var put) none args rest c c' k h e =
      assign-Leaves name (bool_var put) (codes "true") args rest c c' k h e
  set_seen-Leaves name (bool_var put) (some v) args rest c c' k h e =
      assign-Leaves name (bool_var put) v args rest c c' k h e
  set_seen-Leaves name (string_var put) (some v) args rest c c' k h e =
      assign-Leaves name (string_var put) v args rest c c' k h e
  set_seen-Leaves name (uint_var put) (some v) args rest c c' k h e =
      assign-Leaves name (uint_var put) v args rest c c' k h e
  set_seen-Leaves name (duration_var put) (some v) args rest c c' k h e =
      assign-Leaves name (duration_var put) v args rest c c' k h e
  set_seen-Leaves name (string_var put) none [] rest c c' k h e = absurd (ground (arith, e))
  set_seen-Leaves name (uint_var put) none [] rest c c' k h e = absurd (ground (arith, e))
  set_seen-Leaves name (duration_var put) none [] rest c c' k h e = absurd (ground (arith, e))
  set_seen-Leaves name (string_var put) none (v ∷ args) rest c c' k h e =
      assign-Leaves name (string_var put) v args rest c c' k (h.0.1, h.1) e
  set_seen-Leaves name (uint_var put) none (v ∷ args) rest c c' k h e =
      assign-Leaves name (uint_var put) v args rest c c' k (h.0.1, h.1) e
  set_seen-Leaves name (duration_var put) none (v ∷ args) rest c c' k h e =
      assign-Leaves name (duration_var put) v args rest c c' k (h.0.1, h.1) e

  undashed-Leaves :
      (arg name : Text) (args rest : List Text) (c c' : Vars)
      → (name_and_value name).0 ≢ codes "confirm"
      → Leaves args c
      → undashed parse_duration flag_table arg name args c ≡ seen rest c'
      → Leaves rest c'
  unfolding undashed named
  undashed-Leaves arg [] args rest c c' ne h e = absurd (ground (arith, e))
  undashed-Leaves arg (d ∷ name) args rest c c' ne h e =
      elim (Bool-cases (d == b'-' || d == b'=')) [
        | inl bad ↦ absurd (ground (arith, e, bad))
        | inr good ↦ elim (Option-cases (find_flag (name_and_value (d ∷ name)).0 flag_table)) [
          | inl n ↦ absurd (ground (arith, e, good, n))
          | inr (flag, found) ↦
              set_seen-Leaves (name_and_value (d ∷ name)).0 flag (name_and_value (d ∷ name)).1 args
                rest c c'
                (find_flag-Keeps (name_and_value (d ∷ name)).0 flag_table flag flag_table-entries
                  found ne)
                h (ground (arith, e, good, found))
        ]
      ]

  pub parse_one-Leaves :
      (args rest : List Text) (c c' : Vars)
      → Leaves args c
      → parse_one parse_duration flag_table args c ≡ seen rest c'
      → Leaves rest c'
  unfolding parse_one flag_name
  parse_one-Leaves [] rest c c' h e = absurd (ground (arith, e))
  parse_one-Leaves ([] ∷ args) rest c c' h e = absurd (ground (arith, e))
  parse_one-Leaves ((d ∷ []) ∷ args) rest c c' h e = absurd (ground (arith, e))
  parse_one-Leaves ((d ∷ f ∷ s) ∷ args) rest c c' h e = elim (Bool-cases (d == b'-')) [
    | inr other ↦ absurd (ground (arith, e, other))
    | inl dash ↦ elim (Bool-cases (f == b'-')) [
      | inl two ↦
          undashed-Leaves (d ∷ f ∷ s) s args rest c c' (λ q. h.0.0 (two_dashes d f s dash two ∙ q))
            (h.0.1, h.1) (ground (arith, e, dash, two))
      | inr one ↦
          undashed-Leaves (d ∷ f ∷ s) (f ∷ s) args rest c c'
            (λ q. h.0.0 (one_dash d f s dash one ∙ q)) (h.0.1, h.1) (ground (arith, e, dash, one))
    ]
  ]
