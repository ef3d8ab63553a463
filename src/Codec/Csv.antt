-- ===== src/Codec/Csv.antt =====
-- The writer of encoding/csv with its defaults: the comma, and "\n" behind a row.
pub mod Reader
pub mod RoundTrip
use otcat.Base.{
  ℕ, Bool, true, false, ◌&&◌, ◌||◌, List, [], ◌∷◌, ◌++◌, ◌==◌, if◌then◌else◌, Text, codes,
}
use otcat.Base.Strings.{is_space, text_eq}

-- A character that must stand in quotes.
unfoldable pub is_special : ℕ → Bool
is_special c = c == b'\n' || c == b'\r' || c == b'"' || c == b','

unfoldable pub has_special : Text → Bool
unfolding is_special
has_special [] = false
has_special (c ∷ s) = is_special c || has_special s

-- `fieldNeedsQuotes`
unfoldable pub field_needs_quotes : Text → Bool
field_needs_quotes [] = false
field_needs_quotes (c ∷ s) = text_eq (c ∷ s) (codes "\\.") || has_special (c ∷ s) || is_space c

-- A field between its quotes: every quote is doubled.
unfoldable pub double_quotes : Text → Text
double_quotes [] = []
double_quotes (c ∷ s) =
    let rest = double_quotes s in if c == b'"' then b'"' ∷ b'"' ∷ rest else c ∷ rest

unfoldable pub csv_field : Text → Text
csv_field s = if field_needs_quotes s then b'"' ∷ double_quotes s ++ codes "\"" else s

-- The line of a row.
unfoldable pub csv_row : List Text → Text
csv_row [] = codes "\n"
csv_row (f ∷ []) = csv_field f ++ codes "\n"
csv_row (f ∷ g ∷ gs) = csv_field f ++ (b',' ∷ csv_row (g ∷ gs))
