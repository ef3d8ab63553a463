-- ===== src/Modbus/Pdu/Header.antt =====
-- The six bytes that both write-multiple requests of internal/modbus/pdu.go put in front of their
-- values.
use otcat.Base.{
  ℕ, ◌≤◌, ◌<◌, ◌≡◌, ◌∙◌, ◌∷◌, arith, length, set, All, length-set, get_or-replicate, get_or-set_ne,
}
use otcat.Base.Bytes.{
  Byte, Bytes, IsByte, IsU16, make, at, put_uint16, uint16, at-put_uint16_ne, length-put_uint16,
  set-IsByte, put_uint16-IsByte,
}

-- The fields that both write-multiple requests put in front of their values.
abbrev pub put_header : Byte → ℕ → ℕ → Byte → Bytes → Bytes
put_header fc address quantity byte_count pdu =
    set (put_uint16 (put_uint16 (set pdu 0 fc) 1 address) 3 quantity) 5 byte_count

pub record HasHeader (fc address quantity byte_count : ℕ) (pdu : Bytes) : Type 0 where
  pub code : at pdu 0 ≡ fc
  pub start : uint16 pdu 1 ≡ address
  pub quantity_field : uint16 pdu 3 ≡ quantity
  pub count_field : at pdu 5 ≡ byte_count

pub put_header-HasHeader :
    (fc address quantity byte_count quantity' byte_count' : ℕ) (pdu : Bytes)
    → IsU16 address
    → IsU16 quantity
    → 6 ≤ length pdu
    → quantity ≡ quantity'
    → byte_count ≡ byte_count'
    → HasHeader fc address quantity' byte_count' (put_header fc address quantity byte_count pdu)
unfolding put_uint16 uint16
put_header-HasHeader fc a q c q' c' (b0 ∷ b1 ∷ b2 ∷ b3 ∷ b4 ∷ b5 ∷ rest) ha hq h eq ec = omega arith
put_header-HasHeader fc a q c q' c' _ ha hq h eq ec = absurd (omega arith)

pub put_header-IsByte :
    (fc address quantity byte_count : ℕ) (pdu : Bytes)
    → IsByte fc
    → IsByte byte_count
    → All IsByte pdu
    → All IsByte (put_header fc address quantity byte_count pdu)
put_header-IsByte fc a q c pdu hf hc h =
    set-IsByte _ 5 c (put_uint16-IsByte _ 3 q (put_uint16-IsByte _ 1 a (set-IsByte pdu 0 fc h hf)))
      hc

pub length-put_header :
    (fc address quantity byte_count : ℕ) (pdu : Bytes)
    → length (put_header fc address quantity byte_count pdu) ≡ length pdu
length-put_header fc a q c pdu =
    length-set _ 5 c ∙ length-put_uint16 _ 3 q ∙ length-put_uint16 _ 1 a ∙ length-set pdu 0 fc

-- A header survives what is written behind it.
pub HasHeader-transfer :
    (fc address quantity byte_count : ℕ) (b b' : Bytes)
    → ((j : ℕ) → j < 6 → at b' j ≡ at b j)
    → HasHeader fc address quantity byte_count b
    → HasHeader fc address quantity byte_count b'
unfolding uint16
HasHeader-transfer fc a q c b b' same h = record {
  code = omega (arith, same 0 (omega arith));
  start = omega (arith, same 1 (omega arith), same 2 (omega arith));
  quantity_field = omega (arith, same 3 (omega arith), same 4 (omega arith));
  count_field = omega (arith, same 5 (omega arith));
}

-- The bytes behind the header of a fresh buffer are still 0.
pub at-put_header_clear :
    (fc address quantity byte_count n j : ℕ)
    → 6 ≤ j
    → at (put_header fc address quantity byte_count (make n)) j ≡ 0
at-put_header_clear fc a q c n j h =
    get_or-set_ne _ 5 j c 0 (λ e. omega arith)
    ∙ at-put_uint16_ne _ 3 q j (λ e. omega arith) (λ e. omega arith)
    ∙ at-put_uint16_ne _ 1 a j (λ e. omega arith) (λ e. omega arith)
    ∙ get_or-set_ne (make n) 0 j fc 0 (λ e. omega arith)
    ∙ get_or-replicate n j 0
