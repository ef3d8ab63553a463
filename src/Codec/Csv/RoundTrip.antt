-- ===== src/Codec/Csv/RoundTrip.antt =====
-- What encoding/csv writes for internal/codec is read back, whatever the fields contain.
use otcat.Base.{
  ℕ, ◌≡◌, ◌≢◌, refl, ◌∙◌, ap, true, false, ◌⊎◌, List, [], ◌∷◌, ◌++◌, ◌==◌, Text, codes, arith,
  append_assoc, append-nil, inl, inr, Bool-cases, All,
}
use otcat.Codec.Csv.{is_special, has_special, field_needs_quotes, double_quotes, csv_field, csv_row}
use otcat.Codec.Csv.Reader.{
  Mode, fresh, plain, quoted, closing, Progress, outside, step, read_on, read_csv,
}

read_on-append : (s t : Text) (p : Progress) → read_on (s ++ t) p ≡ read_on t (read_on s p)
unfolding read_on
read_on-append [] t p = refl
read_on-append (c ∷ s) t p = read_on-append s t (step c p)

abbrev at : Mode → Text → List Text → List (List Text) → Progress
at m f r rs = record { mode = m; field = f; row = r; rows = rs }

snoc-append : (f : Text) (c : ℕ) (s : Text) → (f ++ (c ∷ [])) ++ s ≡ f ++ (c ∷ s)
snoc-append f c s = append_assoc f (c ∷ []) s

-- Text with no special character is read as it is, once a field has begun.
read_plain :
    (s f : Text) (r : List Text) (rs : List (List Text))
    → has_special s ≡ false
    → read_on s (at plain f r rs) ≡ at plain (f ++ s) r rs
unfolding read_on step outside has_special is_special
read_plain [] f r rs h = rw (append-nil f) refl
read_plain (c ∷ s) f r rs h =
    rw outside_step
      (read_plain s (f ++ (c ∷ [])) r rs rest ∙ ap (λ x. at plain x r rs) (snoc-append f c s))
  where
    outside_step : outside c (at plain f r rs) ≡ at plain (f ++ (c ∷ [])) r rs
    outside_step = ground (arith, h)

    rest : has_special s ≡ false
    rest = ground (arith, h)

step_quoted :
    (c : ℕ) (f : Text) (r : List Text) (rs : List (List Text))
    → (c == b'"') ≡ false
    → step c (at quoted f r rs) ≡ at quoted (f ++ (c ∷ [])) r rs
unfolding step
step_quoted c f r rs n = ground (arith, n)

step_quote :
    (f : Text) (r : List Text) (rs : List (List Text))
    → step b'"' (step b'"' (at quoted f r rs)) ≡ at quoted (f ++ (b'"' ∷ [])) r rs
unfolding step
step_quote f r rs = refl

double_quotes_quote :
    (c : ℕ) (s : Text) → (c == b'"') ≡ true → double_quotes (c ∷ s) ≡ b'"' ∷ b'"' ∷ double_quotes s
unfolding double_quotes
double_quotes_quote c s q = rw q refl

double_quotes_other :
    (c : ℕ) (s : Text) → (c == b'"') ≡ false → double_quotes (c ∷ s) ≡ c ∷ double_quotes s
unfolding double_quotes
double_quotes_other c s n = rw n refl

same_quote : (c : ℕ) → (c == b'"') ≡ true → b'"' ≡ c
same_quote c q = ground (arith, q)

-- The inside of quotes is read with each quote once.
read_quoted :
    (s f : Text) (r : List Text) (rs : List (List Text))
    → read_on (double_quotes s) (at quoted f r rs) ≡ at quoted (f ++ s) r rs
unfolding read_on
read_quoted [] f r rs = unfold double_quotes in rw (append-nil f) refl
read_quoted (c ∷ s) f r rs = elim (Bool-cases (c == b'"')) [
  | inl q ↦
      ap (λ x. read_on x (at quoted f r rs)) (double_quotes_quote c s q)
      ∙ ap (read_on (double_quotes s)) (step_quote f r rs)
      ∙ onward b'"' (read_quoted s (f ++ (b'"' ∷ [])) r rs)
      ∙ ap (λ d. at quoted (f ++ (d ∷ s)) r rs) (same_quote c q)
  | inr n ↦
      ap (λ x. read_on x (at quoted f r rs)) (double_quotes_other c s n)
      ∙ ap (read_on (double_quotes s)) (step_quoted c f r rs n)
      ∙ onward c (read_quoted s (f ++ (c ∷ [])) r rs)
]
  where
    onward :
        (d : ℕ)
        → read_on (double_quotes s) (at quoted (f ++ (d ∷ [])) r rs)
          ≡ at quoted ((f ++ (d ∷ [])) ++ s) r rs
        → read_on (double_quotes s) (at quoted (f ++ (d ∷ [])) r rs) ≡ at quoted (f ++ (d ∷ s)) r rs
    onward d e = e ∙ ap (λ x. at quoted x r rs) (snoc-append f d s)

-- What stands behind a field.
abbrev IsEnd : ℕ → Type 0
IsEnd c = (c ≡ b',') ⊎ (c ≡ b'\n')

end_step :
    (c : ℕ) (s : Text) (r : List Text) (rs : List (List Text))
    → IsEnd c
    → (outside c (at closing s r rs) ≡ outside c (at plain s r rs))
      × (step c (at fresh s r rs) ≡ outside c (at plain s r rs))
      × (step c (at plain s r rs) ≡ outside c (at plain s r rs))
      × (step c (at closing s r rs) ≡ outside c (at plain s r rs))
unfolding step outside
end_step c s r rs end = ground (arith, end)

first_step :
    (c : ℕ) (s : Text) (r : List Text) (rs : List (List Text))
    → has_special (c ∷ s) ≡ false
    → (step c (at fresh [] r rs) ≡ at plain (c ∷ []) r rs) × (has_special s ≡ false)
unfolding step outside has_special is_special
first_step c s r rs h = ground (arith, h)

read_unquoted :
    (s : Text) (c : ℕ) (t : Text) (r : List Text) (rs : List (List Text))
    → has_special s ≡ false
    → IsEnd c
    → read_on (s ++ (c ∷ t)) (at fresh [] r rs) ≡ read_on t (outside c (at plain s r rs))
unfolding read_on
read_unquoted [] c t r rs h end = ap (read_on t) (end_step c [] r rs end).1
read_unquoted (d ∷ s) c t r rs h end =
    let (first, rest) = first_step d s r rs h in
    ap (read_on (s ++ (c ∷ t))) first
    ∙ read_on-append s (c ∷ t) (at plain (d ∷ []) r rs)
    ∙ ap (λ p. read_on t (step c p)) (read_plain s (d ∷ []) r rs rest)
    ∙ ap (read_on t) (end_step c (d ∷ s) r rs end).2

read_in_quotes :
    (s : Text) (c : ℕ) (t : Text) (r : List Text) (rs : List (List Text))
    → IsEnd c
    → read_on ((b'"' ∷ double_quotes s ++ codes "\"") ++ (c ∷ t)) (at fresh [] r rs)
      ≡ read_on t (outside c (at plain s r rs))
unfolding read_on
read_in_quotes s c t r rs end =
    ap (λ x. read_on x (step b'"' (at fresh [] r rs)))
      (append_assoc (double_quotes s) (codes "\"") (c ∷ t))
    ∙ ap (read_on (double_quotes s ++ (b'"' ∷ c ∷ t))) opened
    ∙ read_on-append (double_quotes s) (b'"' ∷ c ∷ t) (at quoted [] r rs)
    ∙ ap (λ p. read_on t (step c (step b'"' p))) (read_quoted s [] r rs)
    ∙ ap (λ p. read_on t (step c p)) closed
    ∙ ap (read_on t) (end_step c s r rs end).3
  where
    opened : step b'"' (at fresh [] r rs) ≡ at quoted [] r rs
    opened = unfold step in refl

    closed : step b'"' (at quoted s r rs) ≡ at closing s r rs
    closed = unfold step in refl

-- A field is read up to the comma or the newline behind it.
needs : (d : ℕ) (s : Text) → field_needs_quotes (d ∷ s) ≡ false → has_special (d ∷ s) ≡ false
unfolding field_needs_quotes
needs d s n = ground (arith, n)

csv_field_quoted :
    (s : Text) → field_needs_quotes s ≡ true → csv_field s ≡ b'"' ∷ double_quotes s ++ codes "\""
unfolding csv_field
csv_field_quoted s q = rw q refl

csv_field_plain : (s : Text) → field_needs_quotes s ≡ false → csv_field s ≡ s
unfolding csv_field
csv_field_plain s n = rw n refl

after_comma :
    (s : Text) (r : List Text) (rs : List (List Text))
    → outside b',' (at plain s r rs) ≡ at fresh [] (r ++ (s ∷ [])) rs
unfolding outside
after_comma s r rs = refl

after_newline :
    (s : Text) (r : List Text) (rs : List (List Text))
    → outside b'\n' (at plain s r rs) ≡ at fresh [] [] (rs ++ ((r ++ (s ∷ [])) ∷ []))
unfolding outside
after_newline s r rs = refl

read_field :
    (s : Text) (c : ℕ) (t : Text) (r : List Text) (rs : List (List Text))
    → IsEnd c
    → read_on (csv_field s ++ (c ∷ t)) (at fresh [] r rs) ≡ read_on t (outside c (at plain s r rs))
read_field s c t r rs end = elim (Bool-cases (field_needs_quotes s)) [
  | inl q ↦
      ap (λ x. read_on (x ++ (c ∷ t)) (at fresh [] r rs)) (csv_field_quoted s q)
      ∙ read_in_quotes s c t r rs end
  | inr n ↦
      ap (λ x. read_on (x ++ (c ∷ t)) (at fresh [] r rs)) (csv_field_plain s n)
      ∙ read_unquoted s c t r rs (unquoted s n) end
]
  where
    unquoted : (s : Text) → field_needs_quotes s ≡ false → has_special s ≡ false
    unquoted [] n = unfold has_special in refl
    unquoted (d ∷ s) n = needs d s n

read_row :
    (row : List Text) (f : Text) (t : Text) (r : List Text) (rs : List (List Text))
    → read_on (csv_row (f ∷ row) ++ t) (at fresh [] r rs)
      ≡ read_on t (at fresh [] [] (rs ++ ((r ++ (f ∷ row)) ∷ [])))
unfolding csv_row
read_row [] f t r rs =
    ap (λ x. read_on x (at fresh [] r rs)) (append_assoc (csv_field f) (codes "\n") t)
    ∙ read_field f b'\n' t r rs (inr refl)
    ∙ ap (read_on t) (after_newline f r rs)
read_row (g ∷ row) f t r rs =
    ap (λ x. read_on x (at fresh [] r rs)) (append_assoc (csv_field f) (b',' ∷ csv_row (g ∷ row)) t)
    ∙ read_field f b',' (csv_row (g ∷ row) ++ t) r rs (inl refl)
    ∙ ap (read_on (csv_row (g ∷ row) ++ t)) (after_comma f r rs)
    ∙ read_row row g t (r ++ (f ∷ [])) rs
    ∙ ap (λ x. read_on t (at fresh [] [] (rs ++ (x ∷ [])))) (append_assoc r (f ∷ []) (g ∷ row))

-- The lines of the rows, one behind the other.
unfoldable pub csv_rows : List (List Text) → Text
csv_rows [] = []
csv_rows (row ∷ rows) = csv_row row ++ csv_rows rows

abbrev pub IsRow : List Text → Type 0
IsRow row = row ≢ []

read_rows :
    (rows : List (List Text)) (rs : List (List Text))
    → All IsRow rows
    → read_on (csv_rows rows) (at fresh [] [] rs) ≡ at fresh [] [] (rs ++ rows)
unfolding csv_rows
read_rows [] rs h = unfold read_on in rw (append-nil rs) refl
read_rows ([] ∷ rows) rs h = absurd (h.0 refl)
read_rows ((f ∷ fs) ∷ rows) rs h =
    read_row fs f (csv_rows rows) [] rs
    ∙ read_rows rows (rs ++ ((f ∷ fs) ∷ [])) h.1
    ∙ ap (at fresh [] []) (append_assoc rs ((f ∷ fs) ∷ []) rows)

-- Rows of one field at least, whatever the fields contain, are read back as they were written.
pub read_csv-csv_rows : (rows : List (List Text)) → All IsRow rows → read_csv (csv_rows rows) ≡ rows
unfolding read_csv
read_csv-csv_rows rows h = ap (λ (p : Progress). p.rows) (read_rows rows [] h)
