-- ===== src/Modbus/Driver/Encoding.antt =====
-- What a write of internal/modbus/driver.go sends, worked out with no connection: `encodeWrite` and
-- `ExplainWrite`. `parse_float` is as in Convert.
use otcat.Base.{
  ℕ, Bool, true, false, not, Option, List, [], ◌∷◌, ◌++◌, ◌==◌, if◌then◌else◌, length, Text, codes,
}
use otcat.Base.Strings.{trim_space, to_lower, one_of, split}
use otcat.Errors.{
  Result, ok, err, ◌>>=◌, ◌>>◌, refuse_if, invalid_input, read_only_table, bad_coil_value,
  empty_coils,
}
use otcat.Protocol.{WritePlan}
use otcat.Modbus.Address.{Table, writable, Spec, parse_spec, spec_string}
use otcat.Modbus.Convert.{
  ByteOrder, big_endian, WordOrder, high_word_first, DataType, data_type_string, Codec, encode,
}

pub record Options : Type 0 where
  pub unit_id : ℕ
  pub timeout : ℕ
  pub type : DataType
  pub byte_order : ByteOrder
  pub word_order : WordOrder
  pub raw_address : Bool

abbrev pub default_options : Options
default_options = record {
  unit_id = 1;
  timeout = 5_000_000_000;
  type = DataType.uint16;
  byte_order = big_endian;
  word_order = high_word_first;
  raw_address = false;
}

abbrev pub codec_of : Options → Codec
codec_of opt = record { byte_order = opt.byte_order; word_order = opt.word_order }

abbrev pub is_coil : Table → Bool
is_coil Table.coil = true
is_coil _ = false

abbrev pub is_holding : Table → Bool
is_holding Table.holding_register = true
is_holding _ = false

-- One part of a coil literal.
unfoldable pub parse_bool : Text → Result Bool
parse_bool p =
    let t = to_lower (trim_space p) in
    if one_of t (codes "1" ∷ codes "true" ∷ codes "on" ∷ codes "yes" ∷ [])
    then ok true
    else if one_of t (codes "0" ∷ codes "false" ∷ codes "off" ∷ codes "no" ∷ [])
    then ok false
    else err (invalid_input bad_coil_value)

unfoldable pub parse_bools : List Text → Result (List Bool)
parse_bools [] = ok []
parse_bools (p ∷ ps) = do b ← parse_bool p; bs ← parse_bools ps; ok (b ∷ bs)

unfoldable pub parse_bool_list : Text → Result (List Bool)
parse_bool_list s = do
  out ← parse_bools (split b',' s)
  refuse_if (length out == 0) (invalid_input empty_coils)
  ok out

-- What `encodeWrite` returns without an error.
pub record Encoded : Type 0 where
  pub spec : Spec
  pub coils : List Bool
  pub regs : List ℕ

-- The plan that shows what was encoded.
unfoldable pub plan_of : Options → Text → Encoded → WritePlan
plan_of opt literal w = record {
  driver = codes "modbus";
  address = spec_string w.spec;
  literal = literal;
  type_name = if is_coil w.spec.table then [] else data_type_string opt.type;
  registers = if is_coil w.spec.table then [] else w.regs;
  coils = if is_coil w.spec.table then w.coils else [];
}

module _ (parse_float : Text → Option ℕ) where
  -- The loop over the parts of a register literal.
  unfoldable pub encode_parts : Codec → DataType → List Text → Result (List ℕ)
  encode_parts c t [] = ok []
  encode_parts c t (lit ∷ lits) = do
    regs ← encode parse_float c t (trim_space lit)
    more ← encode_parts c t lits
    ok (regs ++ more)

  unfoldable pub encode_values : Options → Spec → Text → Result Encoded
  encode_values opt sp literal =
      if is_coil sp.table
      then (parse_bool_list literal >>= λ values.
          ok (record { spec = sp; coils = values; regs = [] }))
      else (encode_parts (codec_of opt) opt.type (split b',' literal) >>= λ regs.
          ok (record { spec = sp; coils = []; regs = regs }))

  unfoldable pub encode_write : Options → Text → Text → Result Encoded
  encode_write opt spec literal = do
    sp ← parse_spec spec opt.raw_address
    refuse_if (not (writable sp.table)) (invalid_input read_only_table)
    encode_values opt sp literal

  unfoldable pub explain_write : Options → Text → Text → Result WritePlan
  explain_write opt spec literal = do w ← encode_write opt spec literal; ok (plan_of opt literal w)
