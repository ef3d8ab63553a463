-- ===== src/Mock/Server/Reads.antt =====
-- The read handlers of internal/mock/server.go against the client's decoders.
use otcat.Base.{
  ℕ, ◌+◌, ◌*◌, ◌/◌, ◌≤◌, ◌≡◌, refl, sym, ◌∙◌, Bool, ◌∷◌, arith, length, set, All, length-set,
  tabulate, tabulate_ext, get_or-replicate, get_or-set_ne,
}
use otcat.Base.Bytes.{
  Byte, Bytes, IsByte, IsU16, make, at, u8, uint16, put_words, at-put_words_lt, length-put_words,
  uint16-put_words, length-make, make-IsByte, set-IsByte,
}
use otcat.Base.Bits.{
  put_bits, bit_at, at-put_bits_lt, length-put_bits, bit_at-put_bits, bit_at-clear,
}
use otcat.Errors.{ok}
use otcat.Modbus.Pdu.{decode_read_bits_response, decode_read_registers_response}
use otcat.Modbus.Pdu.Responses.{decode_read_bits_response_iff, decode_read_registers_response_iff}
use otcat.Modbus.Pdu.Requests.{IsFive}
use otcat.Modbus.Mbap.{max_pdu}
use otcat.Mock.Server.{exception, read_bits, read_regs, table_len}

-- The two bytes in front of the data of a read response.
put_prefix : Byte → Byte → Bytes → Bytes
put_prefix fc byte_count out = set (set out 0 fc) 1 byte_count

put_prefix_fields :
    (fc byte_count : ℕ) (out : Bytes)
    → 2 ≤ length out
    → (at (put_prefix fc byte_count out) 0 ≡ fc)
      × (at (put_prefix fc byte_count out) 1 ≡ byte_count)
unfolding put_prefix
put_prefix_fields fc c (b0 ∷ b1 ∷ rest) h = (refl, refl)
put_prefix_fields fc c _ h = absurd (omega arith)

length-put_prefix :
    (fc byte_count : ℕ) (out : Bytes) → length (put_prefix fc byte_count out) ≡ length out
unfolding put_prefix
length-put_prefix fc c out = length-set _ 1 c ∙ length-set out 0 fc

pub registers_response : Byte → ℕ → (ℕ → ℕ) → Bytes
registers_response fc qty f =
    put_words f 2 qty 0 (put_prefix fc (u8 (qty * 2)) (make (2 + qty * 2)))

pub bits_response : Byte → ℕ → (ℕ → Bool) → Bytes
bits_response fc qty f =
    put_bits f 2 qty 0 (put_prefix fc (u8 ((qty + 7) / 8)) (make (2 + (qty + 7) / 8)))

-- A request in range is answered with the registers asked for.
pub read_regs_accepted :
    (pdu : Bytes) (fc code addr qty : ℕ) (table : ℕ → ℕ)
    → IsFive code addr qty pdu
    → 1 ≤ qty
    → qty ≤ 125
    → addr + qty ≤ table_len
    → read_regs pdu fc table ≡ registers_response fc qty (λ i. table (addr + i))
unfolding read_regs registers_response put_prefix
read_regs_accepted pdu fc code addr qty table v lo hi range =
    rw (v.len, v.first_word, v.second_word) (ground arith)

pub read_bits_accepted :
    (pdu : Bytes) (fc code addr qty : ℕ) (table : ℕ → Bool)
    → IsFive code addr qty pdu
    → 1 ≤ qty
    → qty ≤ 2000
    → addr + qty ≤ table_len
    → read_bits pdu fc table ≡ bits_response fc qty (λ i. table (addr + i))
unfolding read_bits bits_response put_prefix
read_bits_accepted pdu fc code addr qty table v lo hi range =
    rw (v.len, v.first_word, v.second_word) (ground arith)

-- The shape of a read response: what `do` and the decoder look at first.
pub record IsReadResponse (fc byte_count : ℕ) (resp : Bytes) : Type 0 where
  pub code : at resp 0 ≡ fc
  pub count : at resp 1 ≡ byte_count
  pub len : length resp ≡ 2 + byte_count

pub registers_response_shape :
    (fc qty : ℕ) (f : ℕ → ℕ) → qty ≤ 125 → IsReadResponse fc (qty * 2) (registers_response fc qty f)
unfolding registers_response
registers_response_shape fc qty f h = omega (
  arith,
  put_prefix_fields fc (u8 (qty * 2)) fresh (omega (arith, length-make (2 + qty * 2))),
  at-put_words_lt f 2 qty 0 0 start (omega arith),
  at-put_words_lt f 2 qty 0 1 start (omega arith),
  length-put_words f 2 qty 0 start,
  length-put_prefix fc (u8 (qty * 2)) fresh,
  length-make (2 + qty * 2),
)
  where
    fresh : Bytes
    fresh = make (2 + qty * 2)

    start : Bytes
    start = put_prefix fc (u8 (qty * 2)) fresh

pub bits_response_shape :
    (fc qty : ℕ) (f : ℕ → Bool)
    → qty ≤ 2000
    → IsReadResponse fc ((qty + 7) / 8) (bits_response fc qty f)
unfolding bits_response
bits_response_shape fc qty f h = omega (
  arith,
  put_prefix_fields fc (u8 n) fresh (omega (arith, length-make (2 + n))),
  at-put_bits_lt f 2 qty 0 0 start (omega arith),
  at-put_bits_lt f 2 qty 0 1 start (omega arith),
  length-put_bits f 2 qty 0 start,
  length-put_prefix fc (u8 n) fresh,
  length-make (2 + n),
)
  where
    n : ℕ
    n = (qty + 7) / 8

    fresh : Bytes
    fresh = make (2 + n)

    start : Bytes
    start = put_prefix fc (u8 n) fresh

-- What the client's decoder makes of such a response.
pub decode-registers_response :
    (fc qty : ℕ) (f : ℕ → ℕ)
    → qty ≤ 125
    → ((i : ℕ) → IsU16 (f i))
    → decode_read_registers_response (registers_response fc qty f) qty ≡ ok (tabulate qty 0 f)
decode-registers_response fc qty f h hf =
    (decode_read_registers_response_iff _ qty _).1
      (omega (arith, shape), shape.count, omega (arith, shape), sym words)
  where
    shape : IsReadResponse fc (qty * 2) (registers_response fc qty f)
    shape = registers_response_shape fc qty f h

    start : Bytes
    start = put_prefix fc (u8 (qty * 2)) (make (2 + qty * 2))

    words :
        tabulate qty 0 (λ i. uint16 (registers_response fc qty f) (2 + 2 * i)) ≡ tabulate qty 0 f
    words =
        unfold registers_response in
        tabulate_ext qty 0 _ f λ k lo hi.
          uint16-put_words f 2 qty 0 k start (hf k)
            (omega (
              arith,
              length-put_prefix fc (u8 (qty * 2)) (make (2 + qty * 2)),
              length-make (2 + qty * 2),
            ))
            lo hi

pub decode-bits_response :
    (fc qty : ℕ) (f : ℕ → Bool)
    → IsByte fc
    → qty ≤ 2000
    → decode_read_bits_response (bits_response fc qty f) qty ≡ ok (tabulate qty 0 f)
decode-bits_response fc qty f hfc h =
    (decode_read_bits_response_iff _ qty _).1
      (omega (arith, shape), shape.count, omega (arith, shape), sym bits)
  where
    shape : IsReadResponse fc ((qty + 7) / 8) (bits_response fc qty f)
    shape = bits_response_shape fc qty f h

    n : ℕ
    n = (qty + 7) / 8

    start : Bytes
    start = put_prefix fc (u8 n) (make (2 + n))

    clean : (j : ℕ) → 2 ≤ j → at start j ≡ 0
    clean j two =
        unfold put_prefix in
        get_or-set_ne (set (make (2 + n)) 0 fc) 1 j (u8 n) 0 (λ e. omega arith)
        ∙ get_or-set_ne (make (2 + n)) 0 j fc 0 (λ e. omega arith)
        ∙ get_or-replicate (2 + n) j 0

    bytes : All IsByte start
    bytes =
        unfold put_prefix in
        set-IsByte (set (make (2 + n)) 0 fc) 1 (u8 n)
          (set-IsByte (make (2 + n)) 0 fc (make-IsByte (2 + n)) hfc) (omega arith)

    bits : tabulate qty 0 (λ i. bit_at (bits_response fc qty f) 2 i) ≡ tabulate qty 0 f
    bits =
        unfold bits_response in
        tabulate_ext qty 0 _ f λ k lo hi.
          bit_at-put_bits f 2 qty 0 k start bytes
            (omega (arith, length-put_prefix fc (u8 n) (make (2 + n)), length-make (2 + n)))
            (bit_at-clear start 2 k (clean (2 + k / 8) (omega arith))) lo hi

-- An answer that the framing can carry: a function code and at least one byte, in the budget.
abbrev pub Fits : Bytes → Type 0
Fits resp = (2 ≤ length resp) × (length resp ≤ max_pdu)

pub read_bits-Fits : (pdu : Bytes) (fc : ℕ) (table : ℕ → Bool) → Fits (read_bits pdu fc table)
unfolding read_bits exception bits_response put_prefix
read_bits-Fits pdu fc table = ground (arith, len (λ i. table (uint16 pdu 1 + i)))
  where
    len :
        (f : ℕ → Bool)
        → uint16 pdu 3 ≤ 2000
        → length (bits_response fc (uint16 pdu 3) f) ≡ 2 + (uint16 pdu 3 + 7) / 8
    len f h = (bits_response_shape fc (uint16 pdu 3) f h).len

pub read_regs-Fits : (pdu : Bytes) (fc : ℕ) (table : ℕ → ℕ) → Fits (read_regs pdu fc table)
unfolding read_regs exception registers_response put_prefix
read_regs-Fits pdu fc table = ground (arith, len (λ i. table (uint16 pdu 1 + i)))
  where
    len :
        (f : ℕ → ℕ)
        → uint16 pdu 3 ≤ 125
        → length (registers_response fc (uint16 pdu 3) f) ≡ 2 + uint16 pdu 3 * 2
    len f h = (registers_response_shape fc (uint16 pdu 3) f h).len
