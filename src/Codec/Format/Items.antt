-- ===== src/Codec/Format/Items.antt =====
-- The value column of internal/codec/codec.go: its items can be told apart again.
use otcat.Base.{ℕ, suc, ◌≡◌, ◌≢◌, refl, Bool, true, false, List, [], ◌∷◌, map, Text, arith, All}
use otcat.Base.Int.{ℤ, pos, negsuc}
use otcat.Base.Strings.{split, itoa}
use otcat.Base.Strings.Trim.{IsDigit, All-map, itoa-digits, split-lacks, split-append}
use otcat.Modbus.Convert.{Scalar}
use otcat.Protocol.{flags, scalars}
use otcat.Codec.Format.{bool_text, int_text, join, scalar_text, format_value}

abbrev pub Lacks : ℕ → Text → Type 0
Lacks sep = All (λ c. c ≢ sep)

split-join :
    (sep : ℕ) (s : Text) (ts : List Text)
    → All (Lacks sep) (s ∷ ts)
    → split sep (join sep (s ∷ ts)) ≡ s ∷ ts
unfolding join
split-join sep s [] h = split-lacks sep s h.0
split-join sep s (t ∷ ts) h =
    rw (split-append sep s (join sep (t ∷ ts)) h.0, split-join sep t ts h.1) refl

itoa-Lacks : (n : ℕ) → Lacks b';' (itoa n)
itoa-Lacks n = All-map IsDigit (λ c. c ≢ b';') (itoa n) (λ c d e. omega arith) (itoa-digits n)

int_text-Lacks : (z : ℤ) → Lacks b';' (int_text z)
unfolding int_text
int_text-Lacks (pos n) = itoa-Lacks n
int_text-Lacks (negsuc n) = (λ e. omega arith, itoa-Lacks (suc n))

bool_text-Lacks : (b : Bool) → Lacks b';' (bool_text b)
unfolding bool_text
bool_text-Lacks true = ground arith
bool_text-Lacks false = ground arith

All-image :
    {A : Type 0} (P : Text → Type 0) (f : A → Text) (xs : List A)
    → ((x : A) → P (f x))
    → All P (map f xs)
All-image P f [] h = tt
All-image P f (x ∷ xs) h = (h x, All-image P f xs h)

module _ (float_text : ℕ → Text) (lacks : (bits : ℕ) → Lacks b';' (float_text bits)) where
  scalar_text-Lacks : (v : Scalar) → Lacks b';' (scalar_text float_text v)
  unfolding scalar_text
  scalar_text-Lacks (Scalar.uint16 n) = itoa-Lacks n
  scalar_text-Lacks (Scalar.int16 z) = int_text-Lacks z
  scalar_text-Lacks (Scalar.uint32 n) = itoa-Lacks n
  scalar_text-Lacks (Scalar.int32 z) = int_text-Lacks z
  scalar_text-Lacks (Scalar.float32 bits) = lacks bits

  -- If no float prints a semicolon: splitting the value column of a read of several values at the
  -- semicolons gives the prints of the values, one for one and in order.
  pub split-format_value :
      (v : Scalar) (vs : List Scalar)
      → split b';' (format_value float_text (scalars (v ∷ vs)))
        ≡ map (scalar_text float_text) (v ∷ vs)
  unfolding format_value
  split-format_value v vs =
      split-join b';' (scalar_text float_text v) (map (scalar_text float_text) vs)
        (All-image (Lacks b';') (scalar_text float_text) (v ∷ vs) scalar_text-Lacks)

-- The same for a read of several bits.
pub split-format_flags :
    (float_text : ℕ → Text) (b : Bool) (bs : List Bool)
    → split b';' (format_value float_text (flags (b ∷ bs))) ≡ map bool_text (b ∷ bs)
unfolding format_value
split-format_flags float_text b bs =
    split-join b';' (bool_text b) (map bool_text bs)
      (All-image (Lacks b';') bool_text (b ∷ bs) bool_text-Lacks)
