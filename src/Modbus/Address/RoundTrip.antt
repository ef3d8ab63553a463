-- ===== src/Modbus/Address/RoundTrip.antt =====
-- `Spec.String` against `ParseSpec`.
use otcat.Base.{
  ℕ, ◌≤◌, ◌<◌, ◌^◌, ◌≡◌, refl, ap, ◌∙◌, ◌≢◌, inl, inr, Bool, [], ◌∷◌, ◌++◌, append_assoc, arith,
  ltb, All, some, Bool-cases,
}
use otcat.Base.Bytes.{IsU16}
use otcat.Base.Int.{pos}
use otcat.Base.Strings.{split, atoi, itoa, trim_space, to_lower}
use otcat.Base.Strings.Trim.{
  IsDigit, Solid, digit-Solid, All-map, itoa-digits, atoi-itoa, trim_space-Solid, split-append,
  split-lacks,
}
use otcat.Errors.{ok}
use otcat.Modbus.Address.{
  Table, Spec, table_string, parse_table, resolve_offset, parse_count, parse_spec, spec_string,
}

parse_table-table_string : (t : Table) → parse_table (table_string t) ≡ ok t
unfolding parse_table table_string to_lower trim_space
parse_table-table_string Table.coil = refl
parse_table-table_string Table.discrete_input = refl
parse_table-table_string Table.holding_register = refl
parse_table-table_string Table.input_register = refl

table_string-lacks : (t : Table) → All (λ c. c ≢ b':') (table_string t)
unfolding table_string
table_string-lacks Table.coil = omega arith
table_string-lacks Table.discrete_input = omega arith
table_string-lacks Table.holding_register = omega arith
table_string-lacks Table.input_register = omega arith

itoa-lacks : (n : ℕ) → All (λ c. c ≢ b':') (itoa n)
itoa-lacks n = All-map IsDigit _ (itoa n) (λ c h. omega arith) (itoa-digits n)

read_number : (n : ℕ) → n < 2 ^ 63 → atoi (trim_space (itoa n)) ≡ some (pos n)
read_number n h =
    rw (trim_space-Solid (itoa n) (All-map IsDigit Solid (itoa n) digit-Solid (itoa-digits n)))
      (atoi-itoa n h)

split-spec_string :
    (t : Table) (a : ℕ)
    → split b':' (table_string t ++ (b':' ∷ itoa a)) ≡ table_string t ∷ itoa a ∷ []
split-spec_string t a =
    split-append b':' (table_string t) (itoa a) (table_string-lacks t)
    ∙ ap (λ ps. table_string t ∷ ps) (split-lacks b':' (itoa a) (itoa-lacks a))

split-spec_string_count :
    (t : Table) (a n : ℕ)
    → split b':' ((table_string t ++ (b':' ∷ itoa a)) ++ (b':' ∷ itoa n))
      ≡ table_string t ∷ itoa a ∷ itoa n ∷ []
split-spec_string_count t a n =
    ap (split b':') (append_assoc (table_string t) (b':' ∷ itoa a) (b':' ∷ itoa n))
    ∙ split-append b':' (table_string t) (itoa a ++ (b':' ∷ itoa n)) (table_string-lacks t)
    ∙ ap (λ ps. table_string t ∷ ps)
        (split-append b':' (itoa a) (itoa n) (itoa-lacks a)
          ∙ ap (λ ps. itoa a ∷ ps) (split-lacks b':' (itoa n) (itoa-lacks n)))

resolve-le : (t : Table) (raw : Bool) (n : ℕ) → resolve_offset t raw n ≤ n
unfolding resolve_offset
resolve-le t raw n = ground arith

-- For a 16-bit address and a count below 2^63: parsing the printed spec gives its table and count, and
-- the address that its number stands for as a reference, or itself with raw addressing.
pub parse-spec_string :
    (sp : Spec) (raw : Bool)
    → IsU16 sp.address
    → sp.count < 2 ^ 63
    → parse_spec (spec_string sp) raw
      ≡ ok (record sp { address = resolve_offset sp.table raw sp.address })
unfolding parse_spec spec_string parse_count
parse-spec_string sp raw ha hc = elim (Bool-cases (ltb 0 sp.count)) [
  | inl counted ↦
      rw
        (
          counted,
          split-spec_string_count sp.table sp.address sp.count,
          parse_table-table_string sp.table,
          read_number sp.address (omega arith),
          read_number sp.count hc,
        )
        (ground (arith, resolve-le sp.table raw sp.address))
  | inr single ↦
      rw
        (
          single,
          split-spec_string sp.table sp.address,
          parse_table-table_string sp.table,
          read_number sp.address (omega arith),
        )
        (ground (arith, resolve-le sp.table raw sp.address))
]
