-- ===== src/Cliapp/Parse/Keeps.antt =====
-- The flags of internal/cliapp/flags.go that leave the confirmation alone: all but --confirm.
use otcat.Base.{
  subst, ℕ, ◌≡◌, ◌≢◌, refl, ap, ◌∙◌, ◌⊎◌, inl, inr, Bool, true, false, not, some, List, [], ◌∷◌,
  ◌==◌, if◌then◌else◌, Text, codes, All, arith, Bool-cases,
}
use otcat.Base.Int.{ℤ}
use otcat.Base.Strings.{text_eq}
use otcat.Cliapp.Args.{
  Flag, string_var, bool_var, uint_var, duration_var, name_and_value, find_flag,
}
use otcat.Cliapp.Parse.{Vars, flag_table}

-- The name of the flag that an argument gives; empty where it gives none.
unfoldable pub flag_name : Text → Text
flag_name [] = []
flag_name (d ∷ []) = []
flag_name (d ∷ e ∷ s) =
    if not (d == b'-')
    then []
    else if e == b'-'
    then (name_and_value s).0
    else (name_and_value (e ∷ s)).0

abbrev pub IsSilent : Text → Type 0
IsSilent arg = flag_name arg ≢ codes "confirm"

abbrev pub IsUnconfirmed : Vars → Type 0
IsUnconfirmed c = c.config.confirm ≡ false

-- A flag that leaves the confirmation alone.
abbrev pub Keeps : Flag Vars → Type 0
Keeps (string_var put) = (s : Text) (c : Vars) → IsUnconfirmed c → IsUnconfirmed (put s c)
Keeps (bool_var put) = (b : Bool) (c : Vars) → IsUnconfirmed c → IsUnconfirmed (put b c)
Keeps (uint_var put) = (n : ℕ) (c : Vars) → IsUnconfirmed c → IsUnconfirmed (put n c)
Keeps (duration_var put) = (d : ℤ) (c : Vars) → IsUnconfirmed c → IsUnconfirmed (put d c)

-- Every flag of the table but --confirm does.
abbrev pub IsEntry : Text × Flag Vars → Type 0
IsEntry entry = (entry.0 ≡ codes "confirm") ⊎ Keeps entry.1

text_eq_sound : (s t : Text) → text_eq s t ≡ true → s ≡ t
text_eq_sound [] [] h = refl
text_eq_sound [] (d ∷ t) h = absurd (ground (arith, h))
text_eq_sound (c ∷ s) [] h = absurd (ground (arith, h))
text_eq_sound (c ∷ s) (d ∷ t) h =
    let first : c ≡ d = ground (arith, h) in
    let rest : text_eq s t ≡ true = ground (arith, h) in
    ap (λ x. x ∷ s) first ∙ ap (λ x. d ∷ x) (text_eq_sound s t rest)

pub find_flag-Keeps :
    (name : Text) (table : List (Text × Flag Vars)) (flag : Flag Vars)
    → All IsEntry table
    → find_flag name table ≡ some flag
    → name ≢ codes "confirm"
    → Keeps flag
unfolding find_flag
find_flag-Keeps name [] flag h e ne = absurd (ground (arith, e))
find_flag-Keeps name (entry ∷ entries) flag h e ne = elim (Bool-cases (text_eq name entry.0)) [
  | inl same ↦
      let found : entry.1 ≡ flag = ground (arith, same, e) in
      elim h.0 [
        | inl q ↦ absurd (ne (text_eq_sound name entry.0 same ∙ q))
        | inr k ↦ subst Keeps found k
      ]
  | inr other ↦ find_flag-Keeps name entries flag h.1 (rw other at e) ne
]

pub two_dashes :
    (d e : ℕ) (s : Text)
    → (d == b'-') ≡ true
    → (e == b'-') ≡ true
    → flag_name (d ∷ e ∷ s) ≡ (name_and_value s).0
unfolding flag_name
two_dashes d e s h k = ground (arith, h, k)

pub one_dash :
    (d e : ℕ) (s : Text)
    → (d == b'-') ≡ true
    → (e == b'-') ≡ false
    → flag_name (d ∷ e ∷ s) ≡ (name_and_value (e ∷ s)).0
unfolding flag_name
one_dash d e s h k = ground (arith, h, k)

pub flag_table-entries : All IsEntry flag_table
unfolding flag_table
flag_table-entries = (
  inr same,
  (
    inr same,
    (
      inr same,
      (
        inr same,
        (
          inr same,
          (
            inr same,
            (
              inr same,
              (
                inr same,
                (
                  inr same,
                  (
                    inl refl,
                    (
                      inr same,
                      (
                        inr same,
                        (
                          inr same,
                          (
                            inr same,
                            (
                              inr same,
                              (
                                inr same,
                                (
                                  inr same,
                                  (
                                    inr same,
                                    (
                                      inr same,
                                      (
                                        inr same,
                                        (
                                          inr same,
                                          (inr same, (inr same, (inr same, (inr same, tt)))),
                                        ),
                                      ),
                                    ),
                                  ),
                                ),
                              ),
                            ),
                          ),
                        ),
                      ),
                    ),
                  ),
                ),
              ),
            ),
          ),
        ),
      ),
    ),
  ),
)
  where
    same : {A : Type 0} → (x : A) (c : Vars) → IsUnconfirmed c → IsUnconfirmed c
    same x c h = h
