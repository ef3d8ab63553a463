-- ===== src/Codec/Encoders/Files.antt =====
-- The CSV file that a run of encoders of internal/codec/codec.go leaves on standard output.
use otcat.Base.{
  ℕ, suc, ◌≡◌, refl, ap, ◌∙◌, sym, Bool, true, Option, some, none, List, [], ◌∷◌, ◌++◌, Text,
  append_assoc, append-nil, All, arith,
}
use otcat.Errors.{Error}
use otcat.Protocol.{Value}
use otcat.Codec.Csv.{csv_row}
use otcat.Codec.Csv.Reader.{read_csv}
use otcat.Codec.Csv.RoundTrip.{csv_rows, IsRow, read_csv-csv_rows}
use otcat.Codec.Encoders.{
  Console, new_console, write_out, csv_write, csv_flush, csv_header, csv_fields, csv_encode_row,
  csv_encode,
}

-- Values encoded in order, up to the first error.
unfoldable pub encode_all :
    (Value → Console → Option Error × Console) → List Value → Console → Option Error × Console
encode_all encode [] k = (none, k)
encode_all encode (v ∷ vs) k =
    let (e, k') = encode v k in elim e [ some e ↦ (some e, k') | none ↦ encode_all encode vs k' ]

encode_all_step :
    (encode : Value → Console → Option Error × Console) (v : Value) (vs : List Value)
    (k k' : Console)
    → encode v k ≡ (none, k')
    → encode_all encode (v ∷ vs) k ≡ encode_all encode vs k'
unfolding encode_all
encode_all_step encode v vs k k' e =
    ap
      (λ (r : Option Error × Console). elim r.0 [
        | some e ↦ (some e, r.1)
        | none ↦ encode_all encode vs r.1
      ])
      e

module _ (stamp : ℕ → Text) (float_text : ℕ → Text) where
  -- The fields of each value's row.
  unfoldable pub data_rows : ℕ → List Value → List (List Text)
  data_rows tick [] = []
  data_rows tick (v ∷ vs) = csv_fields stamp float_text tick v ∷ data_rows (suc tick) vs

  -- An output that answers no error, with its header as `h` says and nothing in the buffer.
  abbrev calm : Bool → ℕ → Text → Console
  calm h tick out = record (new_console []) { written = out; tick = tick; header = h }

  calm_row :
      (v : Value) (tick : ℕ) (out : Text)
      → csv_encode stamp float_text v (calm true tick out)
        ≡ (none, calm true (suc tick) (out ++ csv_row (csv_fields stamp float_text tick v)))
  unfolding csv_encode csv_encode_row csv_write csv_flush write_out
  calm_row v tick out = refl

  first_row :
      (v : Value)
      → csv_encode stamp float_text v (new_console [])
        ≡ (none, calm true 1 (csv_row csv_header ++ csv_row (csv_fields stamp float_text 0 v)))
  unfolding csv_encode csv_encode_row csv_write csv_flush write_out
  first_row v = refl

  calm_rows :
      (vs : List Value) (tick : ℕ) (out : Text)
      → (encode_all (csv_encode stamp float_text) vs (calm true tick out)).1.written
        ≡ out ++ csv_rows (data_rows tick vs)
  unfolding encode_all csv_rows data_rows
  calm_rows [] tick out = sym (append-nil out)
  calm_rows (v ∷ vs) tick out =
      let row = csv_row (csv_fields stamp float_text tick v) in
      ap (λ (r : Option Error × Console). r.1.written)
        (encode_all_step (csv_encode stamp float_text) v vs (calm true tick out)
          (calm true (suc tick) (out ++ row)) (calm_row v tick out))
      ∙ calm_rows vs (suc tick) (out ++ row)
      ∙ append_assoc out row (csv_rows (data_rows (suc tick) vs))

  csv_file :
      (v : Value) (vs : List Value)
      → (encode_all (csv_encode stamp float_text) (v ∷ vs) (new_console [])).1.written
        ≡ csv_rows (csv_header ∷ data_rows 0 (v ∷ vs))
  unfolding encode_all csv_rows data_rows
  csv_file v vs =
      let row = csv_row (csv_fields stamp float_text 0 v) in
      ap (λ (r : Option Error × Console). r.1.written)
        (encode_all_step (csv_encode stamp float_text) v vs (new_console [])
          (calm true 1 (csv_row csv_header ++ row)) (first_row v))
      ∙ calm_rows vs 1 (csv_row csv_header ++ row)
      ∙ append_assoc (csv_row csv_header) row (csv_rows (data_rows 1 vs))

  rows-IsRow : (tick : ℕ) (vs : List Value) → All IsRow (data_rows tick vs)
  unfolding data_rows csv_fields
  rows-IsRow tick [] = tt
  rows-IsRow tick (v ∷ vs) = (λ e. ground (arith, e), rows-IsRow (suc tick) vs)

  -- From a fresh encoder on an output that answers no error, a CSV reader gets back from the encoded
  -- values, one at least, the header and then one row of five fields for each value, in order.
  pub read_csv-csv_encode :
      (v : Value) (vs : List Value)
      → read_csv (encode_all (csv_encode stamp float_text) (v ∷ vs) (new_console [])).1.written
        ≡ csv_header ∷ data_rows 0 (v ∷ vs)
  read_csv-csv_encode v vs =
      ap read_csv (csv_file v vs)
      ∙ read_csv-csv_rows (csv_header ∷ data_rows 0 (v ∷ vs))
          ((λ e. ground (arith, e)), rows-IsRow 0 (v ∷ vs))
