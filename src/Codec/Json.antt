-- ===== src/Codec/Json.antt =====
-- The JSON that encoding/json writes for a value and for a write plan, with SetEscapeHTML(false). A
-- float32 prints as the parameter `json_float` says, which has no text for NaN and the infinities.
pub mod Lines
use otcat.Base.{
  ℕ, ◌+◌, ◌-◌, ◌/◌, ◌%◌, Bool, Option, some, none, List, [], ◌∷◌, ◌++◌, map, ltb, ◌==◌,
  if◌then◌else◌, Text, codes,
}
use otcat.Base.Strings.{itoa}
use otcat.Modbus.Convert.{Scalar}
use otcat.Protocol.{
  Quality, quality_string, Payload, flag, flags, scalar, scalars, text, Value, WritePlan,
}
use otcat.Codec.Format.{bool_text, int_text, join}

-- A lower-case hexadecimal digit.
unfoldable pub json_hex : ℕ → ℕ
json_hex d = if ltb d 10 then b'0' + d else b'a' + (d - 10)

-- A character inside a string.
unfoldable pub json_char : ℕ → Text
unfolding json_hex
json_char c =
    if c == b'"'
    then codes "\\\""
    else if c == b'\\'
    then codes "\\\\"
    else if c == 8
    then codes "\\b"
    else if c == 12
    then codes "\\f"
    else if c == 10
    then codes "\\n"
    else if c == 13
    then codes "\\r"
    else if c == 9
    then codes "\\t"
    else if ltb c 0x20
    then codes "\\u00" ++ (json_hex (c / 16) ∷ json_hex (c % 16) ∷ [])
    else if c == 0x2028
    then codes "\\u2028"
    else if c == 0x2029
    then codes "\\u2029"
    else c ∷ []

unfoldable pub json_chars : Text → Text
json_chars [] = []
json_chars (c ∷ s) = json_char c ++ json_chars s

unfoldable pub json_string : Text → Text
json_string s = b'"' ∷ json_chars s ++ codes "\""

unfoldable pub json_array : List Text → Text
json_array items = b'[' ∷ join b',' items ++ codes "]"

-- `"key":value`
unfoldable pub json_field : Text → Text → Text
json_field key value = json_string key ++ (b':' ∷ value)

unfoldable pub json_object : List Text → Text
json_object fields = b'{' ∷ join b',' fields ++ codes "}"

-- A field that `omitempty` leaves out where the list is empty.
abbrev pub json_optional : {A : Type 0} → Text → (List A → Text) → List A → List Text
json_optional key print [] = []
json_optional key print (x ∷ xs) = json_field key (print (x ∷ xs)) ∷ []

-- `Quality.MarshalJSON`
unfoldable pub json_quality : Quality → Text
json_quality q = b'"' ∷ quality_string q ++ codes "\""

unfoldable pub json_words : List ℕ → Text
json_words ws = json_array (map itoa ws)

unfoldable pub json_plan : WritePlan → Text
json_plan p = json_object (
    json_field (codes "driver") (json_string p.driver)
      ∷ json_field (codes "address") (json_string p.address)
      ∷ json_field (codes "literal") (json_string p.literal)
      ∷ json_optional (codes "type") json_string p.type_name
    ++ json_optional (codes "registers") json_words p.registers
    ++ json_optional (codes "coils") (λ bs. json_array (map bool_text bs)) p.coils)

module _ (json_float : ℕ → Option Text) where
  unfoldable pub json_scalar : Scalar → Option Text
  json_scalar (Scalar.uint16 n) = some (itoa n)
  json_scalar (Scalar.int16 z) = some (int_text z)
  json_scalar (Scalar.uint32 n) = some (itoa n)
  json_scalar (Scalar.int32 z) = some (int_text z)
  json_scalar (Scalar.float32 bits) = json_float bits

  unfoldable pub json_scalars : List Scalar → Option (List Text)
  json_scalars [] = some []
  json_scalars (v ∷ vs) =
      let rest = json_scalars vs in
      elim (json_scalar v) [
        | none ↦ none
        | some t ↦ elim rest [ none ↦ none | some ts ↦ some (t ∷ ts) ]
      ]

  unfoldable pub json_payload : Payload → Option Text
  json_payload (flag b) = some (bool_text b)
  json_payload (flags bs) = some (json_array (map bool_text bs))
  json_payload (scalar v) = json_scalar v
  json_payload (scalars vs) = elim (json_scalars vs) [
    | none ↦ none
    | some ts ↦ some (json_array ts)
  ]
  json_payload (text t) = some (json_string t)

  -- `stamp` is the value's time in RFC 3339.
  unfoldable pub json_value : Text → Value → Option Text
  json_value stamp v = elim (json_payload v.value) [
    | none ↦ none
    | some payload ↦ some (
        json_object (
          json_field (codes "address") (json_string v.address)
          ∷ json_field (codes "type") (json_string v.type_name)
          ∷ json_field (codes "value") payload
          ∷ json_field (codes "quality") (json_quality v.quality)
          ∷ json_field (codes "ts") (b'"' ∷ stamp ++ codes "\"")
          ∷ json_optional (codes "raw") json_words v.raw))
  ]
