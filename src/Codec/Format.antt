-- ===== src/Codec/Format.antt =====
-- `formatValue` of internal/codec/codec.go, and `%v` of fmt on the values of the program. A float32
-- prints as the parameter `float_text` says.
pub mod Items
use otcat.Base.{ℕ, suc, ◌+◌, Bool, true, false, List, [], ◌∷◌, ◌++◌, map, Text, codes}
use otcat.Base.Int.{ℤ, pos, negsuc}
use otcat.Base.Strings.{itoa}
use otcat.Modbus.Convert.{Scalar}
use otcat.Protocol.{Payload, flag, flags, scalar, scalars, text}

unfoldable pub bool_text : Bool → Text
bool_text true = codes "true"
bool_text false = codes "false"

unfoldable pub int_text : ℤ → Text
int_text (pos n) = itoa n
int_text (negsuc n) = b'-' ∷ itoa (suc n)

-- The loop that writes `sep` in front of every item but the first.
unfoldable pub join : ℕ → List Text → Text
join sep [] = []
join sep (s ∷ []) = s
join sep (s ∷ t ∷ ts) = s ++ (sep ∷ join sep (t ∷ ts))

module _ (float_text : ℕ → Text) where
  unfoldable pub scalar_text : Scalar → Text
  scalar_text (Scalar.uint16 n) = itoa n
  scalar_text (Scalar.int16 z) = int_text z
  scalar_text (Scalar.uint32 n) = itoa n
  scalar_text (Scalar.int32 z) = int_text z
  scalar_text (Scalar.float32 bits) = float_text bits

  -- `fmt.Sprintf("%v", v)`: a slice stands in brackets, its items apart by spaces.
  unfoldable pub sprint : Payload → Text
  sprint (flag b) = bool_text b
  sprint (flags bs) = b'[' ∷ join b' ' (map bool_text bs) ++ codes "]"
  sprint (scalar s) = scalar_text s
  sprint (scalars ss) = b'[' ∷ join b' ' (map scalar_text ss) ++ codes "]"
  sprint (text t) = t

  unfoldable pub format_value : Payload → Text
  unfolding sprint
  format_value (scalars ss) = join b';' (map scalar_text ss)
  format_value (flags bs) = join b';' (map bool_text bs)
  format_value v = sprint v
