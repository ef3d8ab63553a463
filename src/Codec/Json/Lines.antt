-- ===== src/Codec/Json/Lines.antt =====
-- Every JSON value of internal/codec is one line.
use otcat.Base.{
  ℕ, suc, ◌≡◌, ◌≢◌, refl, subst, Bool, true, false, Option, some, none, List, [], ◌∷◌, ◌++◌, map,
  Text, codes, arith, All,
}
use otcat.Base.Int.{ℤ, pos, negsuc}
use otcat.Base.Strings.{itoa}
use otcat.Base.Strings.Trim.{IsDigit, All-map, All-append, itoa-digits}
use otcat.Modbus.Convert.{Scalar}
use otcat.Protocol.{
  Quality, good, bad, stale, quality_string, Payload, flag, flags, scalar, scalars, text, Value,
}
use otcat.Codec.Format.{bool_text, int_text, join}
use otcat.Codec.Json.{
  json_hex, json_char, json_chars, json_string, json_array, json_field, json_object, json_optional,
  json_quality, json_words, json_scalar, json_scalars, json_payload, json_value,
}

-- A text with no newline.
abbrev pub IsLine : Text → Type 0
IsLine = All (λ c. c ≢ b'\n')

append-IsLine : (s t : Text) → IsLine s → IsLine t → IsLine (s ++ t)
append-IsLine s t h k = All-append (λ c. c ≢ b'\n') s t h k

json_char-IsLine : (c : ℕ) → IsLine (json_char c)
unfolding json_char json_hex
json_char-IsLine c = ground arith

json_chars-IsLine : (s : Text) → IsLine (json_chars s)
unfolding json_chars
json_chars-IsLine [] = tt
json_chars-IsLine (c ∷ s) =
    append-IsLine (json_char c) (json_chars s) (json_char-IsLine c) (json_chars-IsLine s)

json_string-IsLine : (s : Text) → IsLine (json_string s)
unfolding json_string
json_string-IsLine s = (
  λ e. omega arith,
  append-IsLine (json_chars s) (codes "\"") (json_chars-IsLine s) (ground arith),
)

join-IsLine :
    (sep : ℕ) (items : List Text) → sep ≢ b'\n' → All IsLine items → IsLine (join sep items)
unfolding join
join-IsLine sep [] h k = tt
join-IsLine sep (s ∷ []) h k = k.0
join-IsLine sep (s ∷ t ∷ ts) h k =
    append-IsLine s (sep ∷ join sep (t ∷ ts)) k.0 (h, join-IsLine sep (t ∷ ts) h k.1)

json_array-IsLine : (items : List Text) → All IsLine items → IsLine (json_array items)
unfolding json_array
json_array-IsLine items h = (
  λ e. omega arith,
  append-IsLine (join b',' items) (codes "]") (join-IsLine b',' items (λ e. omega arith) h)
      (ground arith),
)

json_object-IsLine : (items : List Text) → All IsLine items → IsLine (json_object items)
unfolding json_object
json_object-IsLine items h = (
  λ e. omega arith,
  append-IsLine (join b',' items) (codes "}") (join-IsLine b',' items (λ e. omega arith) h)
      (ground arith),
)

json_field-IsLine : (key value : Text) → IsLine value → IsLine (json_field key value)
unfolding json_field
json_field-IsLine key value h =
    append-IsLine (json_string key) (b':' ∷ value) (json_string-IsLine key) (λ e. omega arith, h)

itoa-IsLine : (n : ℕ) → IsLine (itoa n)
itoa-IsLine n = All-map IsDigit (λ c. c ≢ b'\n') (itoa n) (λ c d e. omega arith) (itoa-digits n)

int_text-IsLine : (z : ℤ) → IsLine (int_text z)
unfolding int_text
int_text-IsLine (pos n) = itoa-IsLine n
int_text-IsLine (negsuc n) = (λ e. omega arith, itoa-IsLine (suc n))

bool_text-IsLine : (b : Bool) → IsLine (bool_text b)
unfolding bool_text
bool_text-IsLine true = ground arith
bool_text-IsLine false = ground arith

bools-IsLine : (bs : List Bool) → All IsLine (map bool_text bs)
bools-IsLine [] = tt
bools-IsLine (b ∷ bs) = (bool_text-IsLine b, bools-IsLine bs)

numbers-IsLine : (ws : List ℕ) → All IsLine (map itoa ws)
numbers-IsLine [] = tt
numbers-IsLine (w ∷ ws) = (itoa-IsLine w, numbers-IsLine ws)

json_words-IsLine : (ws : List ℕ) → IsLine (json_words ws)
unfolding json_words
json_words-IsLine ws = json_array-IsLine (map itoa ws) (numbers-IsLine ws)

json_quality-IsLine : (q : Quality) → IsLine (json_quality q)
unfolding json_quality quality_string
json_quality-IsLine good = ground arith
json_quality-IsLine bad = ground arith
json_quality-IsLine stale = ground arith

raw-IsLine : (key : Text) (ws : List ℕ) → All IsLine (json_optional key json_words ws)
raw-IsLine key [] = tt
raw-IsLine key (w ∷ ws) =
    (json_field-IsLine key (json_words (w ∷ ws)) (json_words-IsLine (w ∷ ws)), tt)

module _ (json_float : ℕ → Option Text)
    (lines : (bits : ℕ) (t : Text) → json_float bits ≡ some t → IsLine t) where
  json_scalar-IsLine : (v : Scalar) (t : Text) → json_scalar json_float v ≡ some t → IsLine t
  unfolding json_scalar
  json_scalar-IsLine (Scalar.uint16 n) t e =
      let q : itoa n ≡ t = ground (arith, e) in rw (← q) (itoa-IsLine n)
  json_scalar-IsLine (Scalar.int16 z) t e =
      let q : int_text z ≡ t = ground (arith, e) in rw (← q) (int_text-IsLine z)
  json_scalar-IsLine (Scalar.uint32 n) t e =
      let q : itoa n ≡ t = ground (arith, e) in rw (← q) (itoa-IsLine n)
  json_scalar-IsLine (Scalar.int32 z) t e =
      let q : int_text z ≡ t = ground (arith, e) in rw (← q) (int_text-IsLine z)
  json_scalar-IsLine (Scalar.float32 bits) t e = lines bits t e

  -- The elements of a slice, each on one line.
  json_scalars-IsLine :
      (vs : List Scalar) (ts : List Text) → json_scalars json_float vs ≡ some ts → All IsLine ts
  unfolding json_scalars
  json_scalars-IsLine [] ts e = let q : [] ≡ ts = ground (arith, e) in subst (All IsLine) q tt
  json_scalars-IsLine (v ∷ vs) ts e =
      split (json_scalar json_float v) (json_scalars json_float vs) refl refl
        (json_scalars-IsLine vs) e
    where
      split :
          (a : Option Text) (b : Option (List Text))
          → json_scalar json_float v ≡ a
          → json_scalars json_float vs ≡ b
          → ((us : List Text) → json_scalars json_float vs ≡ some us → All IsLine us)
          → elim a [ none ↦ none | some t ↦ elim b [ none ↦ none | some us ↦ some (t ∷ us) ] ]
            ≡ some ts
          → All IsLine ts
      split (some t) (some us) p q rest e =
          let same : t ∷ us ≡ ts = ground (arith, e) in
          subst (All IsLine) same (json_scalar-IsLine v t p, rest us q)
      split (some t) none p q rest e = absurd (ground (arith, e))
      split none b p q rest e = absurd (ground (arith, e))

  json_payload-IsLine : (v : Payload) (t : Text) → json_payload json_float v ≡ some t → IsLine t
  unfolding json_payload
  json_payload-IsLine (flag b) t e =
      let q : bool_text b ≡ t = ground (arith, e) in rw (← q) (bool_text-IsLine b)
  json_payload-IsLine (flags bs) t e =
      let q : json_array (map bool_text bs) ≡ t = ground (arith, e) in
      rw (← q) (json_array-IsLine (map bool_text bs) (bools-IsLine bs))
  json_payload-IsLine (scalar v) t e = json_scalar-IsLine v t e
  json_payload-IsLine (scalars vs) t e = split (json_scalars json_float vs) refl e
    where
      split :
          (a : Option (List Text))
          → json_scalars json_float vs ≡ a
          → elim a [ none ↦ none | some ts ↦ some (json_array ts) ] ≡ some t
          → IsLine t
      split none p e = absurd (ground (arith, e))
      split (some ts) p e =
          let q : json_array ts ≡ t = ground (arith, e) in
          rw (← q) (json_array-IsLine ts (json_scalars-IsLine vs ts p))
  json_payload-IsLine (text s) t e =
      let q : json_string s ≡ t = ground (arith, e) in rw (← q) (json_string-IsLine s)

  -- A value whose timestamp has no newline is encoded as one line, whatever the texts in it contain.
  pub json_value-IsLine :
      (stamp line : Text) (v : Value)
      → IsLine stamp
      → json_value json_float stamp v ≡ some line
      → IsLine line
  unfolding json_value
  json_value-IsLine stamp line v h e = split (json_payload json_float v.value) refl e
    where
      before : Text → List Text
      before p =
          json_field (codes "address") (json_string v.address)
          ∷ json_field (codes "type") (json_string v.type_name)
          ∷ json_field (codes "value") p
          ∷ json_field (codes "quality") (json_quality v.quality)
          ∷ json_field (codes "ts") (b'"' ∷ stamp ++ codes "\"")
          ∷ json_optional (codes "raw") json_words v.raw

      stamped : IsLine (b'"' ∷ stamp ++ codes "\"")
      stamped = (λ e. omega arith, append-IsLine stamp (codes "\"") h (ground arith))

      lined : (p : Text) → IsLine p → All IsLine (before p)
      lined p k = (
        json_field-IsLine (codes "address") (json_string v.address) (json_string-IsLine v.address),
        (
          json_field-IsLine (codes "type") (json_string v.type_name)
              (json_string-IsLine v.type_name),
          (
            json_field-IsLine (codes "value") p k,
            (
              json_field-IsLine (codes "quality") (json_quality v.quality)
                  (json_quality-IsLine v.quality),
              (
                json_field-IsLine (codes "ts") (b'"' ∷ stamp ++ codes "\"") stamped,
                raw-IsLine (codes "raw") v.raw,
              ),
            ),
          ),
        ),
      )

      split :
          (a : Option Text)
          → json_payload json_float v.value ≡ a
          → elim a [ none ↦ none | some p ↦ some (json_object (before p)) ] ≡ some line
          → IsLine line
      split none p e = absurd (ground (arith, e))
      split (some t) p e =
          let q : json_object (before t) ≡ line = ground (arith, e) in
          rw (← q) (json_object-IsLine (before t) (lined t (json_payload-IsLine v.value t p)))
