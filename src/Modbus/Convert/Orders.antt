-- ===== src/Modbus/Convert/Orders.antt =====
-- Byte and word order: `normalize` and `denormalize` undo each other, and `swapBytes` and the
-- joining of two words in plain arithmetic.
use otcat.Base.{
  ℕ, ◌+◌, ◌*◌, ◌/◌, ◌%◌, ◌^◌, ◌<◌, ◌≡◌, refl, ap, ◌∙◌, List, [], ◌∷◌, map, arith, length,
  length-map, All,
}
use otcat.Base.Bytes.{IsU16}
use otcat.Base.Shift.{shift_or}
use otcat.Modbus.Convert.{
  ByteOrder, big_endian, little_endian, WordOrder, high_word_first, low_word_first, Codec,
  swap_bytes, order_bytes, order_words, normalize, denormalize, join_words, split_words,
}

pub swap_bytes_lem : (r : ℕ) → IsU16 r → swap_bytes r ≡ r % 256 * 256 + r / 256
unfolding swap_bytes
swap_bytes_lem r h = rw shifted (shift_or 8 (r % 256) (r / 2 ^ 8) (omega arith))
  where
    shifted : r * 2 ^ 8 % 65536 ≡ r % 256 * 2 ^ 8
    shifted = omega arith

pub swap_bytes-IsU16 : (r : ℕ) → IsU16 r → IsU16 (swap_bytes r)
swap_bytes-IsU16 r h = omega (arith, swap_bytes_lem r h)

-- Swapping the bytes of a 16-bit word twice gives it back.
pub swap_bytes_twice : (r : ℕ) → IsU16 r → swap_bytes (swap_bytes r) ≡ r
swap_bytes_twice r h =
    omega (arith, swap_bytes_lem r h, swap_bytes_lem (swap_bytes r) (swap_bytes-IsU16 r h))

map-swap_bytes_twice :
    (regs : List ℕ) → All IsU16 regs → map swap_bytes (map swap_bytes regs) ≡ regs
map-swap_bytes_twice [] h = refl
map-swap_bytes_twice (r ∷ regs) h = cc (swap_bytes_twice r h.0, map-swap_bytes_twice regs h.1)

order_bytes_twice :
    (o : ByteOrder) (regs : List ℕ) → All IsU16 regs → order_bytes o (order_bytes o regs) ≡ regs
unfolding order_bytes
order_bytes_twice big_endian regs h = refl
order_bytes_twice little_endian regs h = map-swap_bytes_twice regs h

order_words_twice : (o : WordOrder) (regs : List ℕ) → order_words o (order_words o regs) ≡ regs
unfolding order_words
order_words_twice high_word_first regs = refl
order_words_twice low_word_first [] = refl
order_words_twice low_word_first (a ∷ []) = refl
order_words_twice low_word_first (a ∷ b ∷ []) = refl
order_words_twice low_word_first (a ∷ b ∷ c ∷ regs) = refl

pub order_words-IsU16 :
    (o : WordOrder) (regs : List ℕ) → All IsU16 regs → All IsU16 (order_words o regs)
unfolding order_words
order_words-IsU16 high_word_first regs h = h
order_words-IsU16 low_word_first [] h = h
order_words-IsU16 low_word_first (a ∷ []) h = h
order_words-IsU16 low_word_first (a ∷ b ∷ []) h = (h.1.0, (h.0, tt))
order_words-IsU16 low_word_first (a ∷ b ∷ c ∷ regs) h = h

-- On 16-bit words `normalize` undoes `denormalize`, for every pair of orders.
pub normalize-denormalize :
    (c : Codec) (regs : List ℕ) → All IsU16 regs → normalize c (denormalize c regs) ≡ regs
unfolding normalize denormalize
normalize-denormalize c regs h =
    ap (order_words c.word_order) (
      order_bytes_twice c.byte_order (order_words c.word_order regs)
        (order_words-IsU16 c.word_order regs h))
    ∙ order_words_twice c.word_order regs

-- On 16-bit words `denormalize` undoes `normalize`, for every pair of orders.
pub denormalize-normalize :
    (c : Codec) (regs : List ℕ) → All IsU16 regs → denormalize c (normalize c regs) ≡ regs
unfolding normalize denormalize
denormalize-normalize c regs h =
    ap (order_bytes c.byte_order) (order_words_twice c.word_order (order_bytes c.byte_order regs))
    ∙ order_bytes_twice c.byte_order regs h

length-order_bytes : (o : ByteOrder) (regs : List ℕ) → length (order_bytes o regs) ≡ length regs
unfolding order_bytes
length-order_bytes big_endian regs = refl
length-order_bytes little_endian regs = length-map swap_bytes regs

length-order_words : (o : WordOrder) (regs : List ℕ) → length (order_words o regs) ≡ length regs
unfolding order_words
length-order_words high_word_first regs = refl
length-order_words low_word_first [] = refl
length-order_words low_word_first (a ∷ []) = refl
length-order_words low_word_first (a ∷ b ∷ []) = refl
length-order_words low_word_first (a ∷ b ∷ c ∷ regs) = refl

pub length-denormalize : (c : Codec) (regs : List ℕ) → length (denormalize c regs) ≡ length regs
unfolding denormalize
length-denormalize c regs =
    length-order_bytes c.byte_order (order_words c.word_order regs)
    ∙ length-order_words c.word_order regs

pub join-split_words : (v : ℕ) → v < 2 ^ 32 → join_words (split_words v) ≡ v
unfolding join_words split_words
join-split_words v h = rw (shift_or 16 (v / 2 ^ 16 % 65536) (v % 65536) (omega arith)) (omega arith)

pub split_words-IsU16 : (v : ℕ) → All IsU16 (split_words v)
unfolding split_words
split_words-IsU16 v = omega arith

order_bytes-IsU16 :
    (o : ByteOrder) (regs : List ℕ) → All IsU16 regs → All IsU16 (order_bytes o regs)
unfolding order_bytes
order_bytes-IsU16 big_endian regs h = h
order_bytes-IsU16 little_endian [] h = h
order_bytes-IsU16 little_endian (r ∷ rs) h =
    (swap_bytes-IsU16 r h.0, order_bytes-IsU16 little_endian rs h.1)

pub denormalize-IsU16 :
    (c : Codec) (regs : List ℕ) → All IsU16 regs → All IsU16 (denormalize c regs)
unfolding denormalize
denormalize-IsU16 c regs h =
    order_bytes-IsU16 c.byte_order _ (order_words-IsU16 c.word_order regs h)
