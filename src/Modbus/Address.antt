-- ===== src/Modbus/Address.antt =====
-- internal/modbus/address.go: tables, classic five-digit references, and address specs. The model's
-- tables are the four constants; a `Table` byte outside them is never made.
pub mod Bands
pub mod RoundTrip
use otcat.Base.{
  ℕ, ◌+◌, ◌-◌, ◌≤◌, Bool, true, false, not, ◌&&◌, ◌||◌, Option, some, none, List, [], ◌∷◌, ◌++◌,
  ltb, leb, if◌then◌else◌, Text, codes,
}
use otcat.Base.Int.{ℤ, pos, negsuc}
use otcat.Base.Strings.{trim_space, to_lower, one_of, split, atoi, itoa}
use otcat.Errors.{
  Result, ok, err, ◌>>=◌, ◌>>◌, refuse_if, invalid_input, bad_address_form, unknown_table,
  bad_address_number, offset_too_big, bad_count,
}

pub data Table : Type 0 where
  coil discrete_input holding_register input_register : Table

unfoldable pub table_string : Table → Text
table_string Table.coil = codes "coil"
table_string Table.discrete_input = codes "discrete"
table_string Table.holding_register = codes "holding"
table_string Table.input_register = codes "input"

abbrev pub is_bits : Table → Bool
is_bits Table.coil = true
is_bits Table.discrete_input = true
is_bits _ = false

abbrev pub writable : Table → Bool
writable Table.coil = true
writable Table.holding_register = true
writable _ = false

unfoldable pub parse_table : Text → Result Table
parse_table s =
    let t = to_lower (trim_space s) in
    if one_of t (codes "coil" ∷ codes "coils" ∷ codes "co" ∷ codes "c" ∷ [])
    then ok Table.coil
    else if one_of t (
        codes "discrete"
        ∷ codes "discreteinput"
        ∷ codes "discrete_input"
        ∷ codes "di"
        ∷ codes "d"
        ∷ [])
    then ok Table.discrete_input
    else if one_of t (
        codes "holding"
        ∷ codes "holdingregister"
        ∷ codes "holding_register"
        ∷ codes "hr"
        ∷ codes "h"
        ∷ [])
    then ok Table.holding_register
    else if one_of t (
        codes "input"
        ∷ codes "inputregister"
        ∷ codes "input_register"
        ∷ codes "ir"
        ∷ codes "i"
        ∷ [])
    then ok Table.input_register
    else err (invalid_input unknown_table)

abbrev pub classic_base : Table → ℕ
classic_base Table.coil = 1
classic_base Table.discrete_input = 10001
classic_base Table.input_register = 30001
classic_base Table.holding_register = 40001

abbrev pub classic_band_width : ℕ
classic_band_width = 9999

pub record Spec : Type 0 where
  pub table : Table
  pub address : ℕ  -- uint16
  pub count : ℕ  -- int, never negative

-- The offset that a number stands for.
unfoldable pub resolve_offset : Table → Bool → ℕ → ℕ
resolve_offset table raw n =
    let base = classic_base table in
    if not raw && (leb base n && leb n (base + classic_band_width - 1)) then n - base else n

-- `n, err := strconv.Atoi(…); if err != nil || n < 0`
unfoldable pub address_number : Option ℤ → Result ℕ
address_number none = err (invalid_input bad_address_number)
address_number (some (pos n)) = ok n
address_number (some (negsuc n)) = err (invalid_input bad_address_number)

-- `c, err := strconv.Atoi(…); if err != nil || c <= 0`
unfoldable pub count_number : Option ℤ → Result ℕ
count_number none = err (invalid_input bad_count)
count_number (some (pos n)) = if ltb 0 n then ok n else err (invalid_input bad_count)
count_number (some (negsuc n)) = err (invalid_input bad_count)

-- The optional third part.
unfoldable pub parse_count : List Text → Result ℕ
unfolding count_number
parse_count [] = ok 0
parse_count (p ∷ rest) = count_number (atoi (trim_space p))

-- `ParseSpec` behind its check that there are two or three parts.
unfoldable pub parse_parts : Text → Text → List Text → Bool → Result Spec
unfolding address_number
parse_parts p0 p1 more raw = do
  table ← parse_table p0
  n ← address_number (atoi (trim_space p1))
  let offset = resolve_offset table raw n
  refuse_if (ltb 0xFFFF offset) (invalid_input offset_too_big)
  count ← parse_count more
  ok (record { table = table; address = offset; count = count })

split_parts : List Text → Bool → Result Spec
unfolding parse_parts
split_parts (p0 ∷ p1 ∷ []) raw = parse_parts p0 p1 [] raw
split_parts (p0 ∷ p1 ∷ p2 ∷ []) raw = parse_parts p0 p1 (p2 ∷ []) raw
split_parts _ raw = err (invalid_input bad_address_form)

unfoldable pub parse_spec : Text → Bool → Result Spec
unfolding split_parts
parse_spec s raw = split_parts (split b':' s) raw

unfoldable pub spec_string : Spec → Text
spec_string sp =
    let start = table_string sp.table ++ (b':' ∷ itoa sp.address) in
    if ltb 0 sp.count then start ++ (b':' ∷ itoa sp.count) else start
