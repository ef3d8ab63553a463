-- ===== src/Codec/Csv/Reader.antt =====
-- A reader of comma-separated values as RFC 4180 describes them, which the writer is held against.
use otcat.Base.{ℕ, List, [], ◌∷◌, ◌++◌, ◌==◌, if◌then◌else◌, Text}

-- Where the reader stands: at the start of a field, in one without quotes, between quotes, or behind
-- a quote there.
pub data Mode : Type 0 where
  fresh plain quoted closing : Mode

-- What is read so far: the whole rows, the fields of this row and the text of this field.
pub record Progress : Type 0 where
  pub mode : Mode
  pub field : Text
  pub row : List Text
  pub rows : List (List Text)

abbrev pub begin : Progress
begin = record { mode = fresh; field = []; row = []; rows = [] }

abbrev keep : Mode → ℕ → Progress → Progress
keep m c p = record p { mode = m; field = p.field ++ (c ∷ []) }

abbrev end_field : Progress → Progress
end_field p = record p { mode = fresh; field = []; row = p.row ++ (p.field ∷ []) }

abbrev end_row : Progress → Progress
end_row p = record {
  mode = fresh;
  field = [];
  row = [];
  rows = p.rows ++ ((p.row ++ (p.field ∷ [])) ∷ []);
}

-- A character outside quotes.
unfoldable pub outside : ℕ → Progress → Progress
outside c p = if c == b',' then end_field p else if c == b'\n' then end_row p else keep plain c p

unfoldable pub step : ℕ → Progress → Progress
unfolding outside
step c p = elim p.mode [
  | fresh ↦ if c == b'"' then record p { mode = quoted } else outside c p
  | plain ↦ outside c p
  | quoted ↦ if c == b'"' then record p { mode = closing } else keep quoted c p
  | closing ↦ if c == b'"' then keep quoted c p else outside c p
]

unfoldable pub read_on : Text → Progress → Progress
read_on [] p = p
read_on (c ∷ s) p = read_on s (step c p)

-- The whole rows of a text.
unfoldable pub read_csv : Text → List (List Text)
read_csv s = (read_on s begin).rows
