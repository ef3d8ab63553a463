-- ===== src/Base/Bytes.antt =====
-- Byte buffers: encoding/binary's big-endian words, written and read by index.
use otcat.Base.Lists.{
  length, set, get_or, All, length-set, get_or-set_self, get_or-set_ne, replicate, length-replicate,
}
use Prim.Native.Nat.{ℕ, zero, suc, ◌+◌, ◌*◌, ◌/◌, ◌%◌, ◌<◌, ◌≤◌}
use mathlib.Core.Path.{◌≡◌, refl, ◌∙◌}
use mathlib.Core.Logic.{◌≢◌}
use mathlib.Core.List.{List, [], ◌∷◌}
use native.Mathlib.Omega.{arith}
use native.Mathlib.Decide.{ℕ_discrete}

abbrev pub Byte : Type 0
Byte = ℕ

abbrev pub Bytes : Type 0
Bytes = List Byte

abbrev pub IsByte : ℕ → Type 0
IsByte b = b < 256

abbrev pub IsU16 : ℕ → Type 0
IsU16 v = v < 65536

abbrev pub u16 : ℕ → ℕ
u16 v = v % 65536

abbrev pub u8 : ℕ → ℕ
u8 v = v % 256

-- `make([]byte, n)`
abbrev pub make : ℕ → Bytes
make n = replicate n 0

abbrev pub at : Bytes → ℕ → Byte
at b i = get_or b i 0

-- `binary.BigEndian.PutUint16(b[i:i+2], v)`
unfoldable pub put_uint16 : Bytes → ℕ → ℕ → Bytes
put_uint16 b i v = set (set b i (v / 256 % 256)) (i + 1) (v % 256)

-- `binary.BigEndian.Uint16(b[i:i+2])`
unfoldable pub uint16 : Bytes → ℕ → ℕ
uint16 b i = at b i * 256 + at b (i + 1)

-- `for k := i; k < i+n; k++ { PutUint16(b[base+2*k:], f(k)) }`
unfoldable pub put_words : (ℕ → ℕ) → ℕ → ℕ → ℕ → Bytes → Bytes
put_words f base zero i b = b
put_words f base (suc n) i b = put_words f base n (i + 1) (put_uint16 b (base + 2 * i) (f i))

pub length-put_uint16 : (b : Bytes) (i v : ℕ) → length (put_uint16 b i v) ≡ length b
unfolding put_uint16
length-put_uint16 b i v = length-set _ _ _ ∙ length-set b i _

pub uint16-put_uint16 :
    (b : Bytes) (i v : ℕ) → IsU16 v → i + 1 < length b → uint16 (put_uint16 b i v) i ≡ v
unfolding put_uint16 uint16
uint16-put_uint16 b i v hv h = omega (
  arith,
  get_or-set_ne (set b i (v / 256 % 256)) (i + 1) i (v % 256) 0 (omega arith),
  get_or-set_self b i (v / 256 % 256) 0 (omega arith),
  get_or-set_self (set b i (v / 256 % 256)) (i + 1) (v % 256) 0
      (omega (arith, length-set b i (v / 256 % 256))),
)

-- A word written does not touch bytes outside its two.
pub at-put_uint16_ne :
    (b : Bytes) (i v j : ℕ) → i ≢ j → i + 1 ≢ j → at (put_uint16 b i v) j ≡ at b j
unfolding put_uint16
at-put_uint16_ne b i v j h h' =
    get_or-set_ne (set b i (v / 256 % 256)) (i + 1) j (v % 256) 0 h' ∙ get_or-set_ne b i j _ 0 h

pub length-put_words :
    (f : ℕ → ℕ) (base n i : ℕ) (b : Bytes) → length (put_words f base n i b) ≡ length b
unfolding put_words
length-put_words f base zero i b = refl
length-put_words f base (suc n) i b =
    length-put_words f base n (i + 1) _ ∙ length-put_uint16 b (base + 2 * i) (f i)

-- What the loop leaves alone: every byte before its first word and behind its last one.
pub at-put_words_lt :
    (f : ℕ → ℕ) (base n i j : ℕ) (b : Bytes)
    → j < base + 2 * i
    → at (put_words f base n i b) j ≡ at b j
unfolding put_words
at-put_words_lt f base zero i j b h = refl
at-put_words_lt f base (suc n) i j b h =
    at-put_words_lt f base n (i + 1) j _ (omega arith)
    ∙ at-put_uint16_ne b (base + 2 * i) (f i) j (omega arith) (omega arith)

-- The word at index `k` of the loop's range is `f k`.
pub uint16-put_words :
    (f : ℕ → ℕ) (base n i k : ℕ) (b : Bytes)
    → IsU16 (f k)
    → base + 2 * (i + n) ≤ length b
    → i ≤ k
    → k < i + n
    → uint16 (put_words f base n i b) (base + 2 * k) ≡ f k
unfolding uint16 put_words
uint16-put_words f base zero i k b hf hb lo hi = absurd (omega arith)
uint16-put_words f base (suc n) i k b hf hb lo hi = elim (ℕ_discrete i k) [
  | yes e ↦ rw (← e) (first (rw e hf))
  | no ne ↦
      uint16-put_words f base n (i + 1) k _ hf
        (omega (arith, length-put_uint16 b (base + 2 * i) (f i))) (omega arith) (omega arith)
]
  where
    first : IsU16 (f i) → uint16 (put_words f base (suc n) i b) (base + 2 * i) ≡ f i
    first h = omega (
      arith,
      at-put_words_lt f base n (i + 1) (base + 2 * i) (put_uint16 b (base + 2 * i) (f i)),
      at-put_words_lt f base n (i + 1) (base + 2 * i + 1) (put_uint16 b (base + 2 * i) (f i)),
      uint16-put_uint16 b (base + 2 * i) (f i) h (omega arith),
    )

-- Every byte of a buffer that only such writes filled is a byte.
pub set-IsByte : (b : Bytes) (i v : ℕ) → All IsByte b → IsByte v → All IsByte (set b i v)
set-IsByte [] i v h hv = tt
set-IsByte (x ∷ b) zero v h hv = (hv, h.1)
set-IsByte (x ∷ b) (suc i) v h hv = (h.0, set-IsByte b i v h.1 hv)

pub at-IsByte : (b : Bytes) (i : ℕ) → All IsByte b → IsByte (at b i)
at-IsByte [] i h = omega arith
at-IsByte (x ∷ b) zero h = h.0
at-IsByte (x ∷ b) (suc i) h = at-IsByte b i h.1

pub make-IsByte : (n : ℕ) → All IsByte (make n)
make-IsByte zero = tt
make-IsByte (suc n) = (omega arith, make-IsByte n)

pub length-make : (n : ℕ) → length (make n) ≡ n
length-make n = length-replicate n 0

pub put_uint16-IsByte : (b : Bytes) (i v : ℕ) → All IsByte b → All IsByte (put_uint16 b i v)
unfolding put_uint16
put_uint16-IsByte b i v h = set-IsByte _ (i + 1) _ (set-IsByte b i _ h (omega arith)) (omega arith)

pub put_words-IsByte :
    (f : ℕ → ℕ) (base n i : ℕ) (b : Bytes) → All IsByte b → All IsByte (put_words f base n i b)
unfolding put_words
put_words-IsByte f base zero i b h = h
put_words-IsByte f base (suc n) i b h =
    put_words-IsByte f base n (i + 1) _ (put_uint16-IsByte b (base + 2 * i) (f i) h)

pub uint16-IsU16 : (b : Bytes) (i : ℕ) → All IsByte b → IsU16 (uint16 b i)
unfolding uint16
uint16-IsU16 b i h = omega (arith, at-IsByte b i h, at-IsByte b (i + 1) h)
