-- ===== src/Mock/Server.antt =====
-- internal/mock/server.go. The four tables are functions on addresses; the code indexes them below
-- 65536, by a uint16 or behind its range guards, and `set_holding_range` says where it panics.
-- A method that changes the server returns the new one.
pub mod Setup
pub mod Reads
pub mod Writes
pub mod Invariant
use otcat.Base.{
  ℕ, zero, suc, ◌+◌, ◌-◌, ◌*◌, ◌/◌, ◌%◌, Bool, true, false, not, ◌&&◌, ◌||◌, Option, some, none,
  List, [], ◌∷◌, ◌++◌, ltb, leb, ◌==◌, if◌then◌else◌, length, set, get_or, take, drop, bit_or,
}
use otcat.Base.Bytes.{Byte, Bytes, make, at, u8, u16, put_uint16, uint16, put_words}
use otcat.Base.Bits.{put_bits, bit_at}

abbrev pub fc_read_coils : Byte
fc_read_coils = 0x01

abbrev pub fc_read_discrete_inputs : Byte
fc_read_discrete_inputs = 0x02

abbrev pub fc_read_holding_registers : Byte
fc_read_holding_registers = 0x03

abbrev pub fc_read_input_registers : Byte
fc_read_input_registers = 0x04

abbrev pub fc_write_single_coil : Byte
fc_write_single_coil = 0x05

abbrev pub fc_write_single_register : Byte
fc_write_single_register = 0x06

abbrev pub fc_write_multiple_coils : Byte
fc_write_multiple_coils = 0x0F

abbrev pub fc_write_multiple_regs : Byte
fc_write_multiple_regs = 0x10

abbrev pub exception_bit : Byte
exception_bit = 0x80

abbrev pub ex_illegal_function : Byte
ex_illegal_function = 0x01

abbrev pub ex_illegal_address : Byte
ex_illegal_address = 0x02

abbrev pub ex_illegal_value : Byte
ex_illegal_value = 0x03

-- The tables' length.
abbrev pub table_len : ℕ
table_len = 65536

pub record Server : Type 0 where
  pub coils : ℕ → Bool
  pub discrete : ℕ → Bool
  pub holding : ℕ → ℕ
  pub input : ℕ → ℕ

-- `table[i] = v`
abbrev pub update {ℓ} : {A : Type ℓ} → (ℕ → A) → ℕ → A → ℕ → A
update f i v j = if i == j then v else f j

-- `for k := i; k < i+n; k++ { table[addr+k] = g(k) }`
unfoldable pub fill {ℓ} : {A : Type ℓ} → (ℕ → A) → ℕ → ℕ → ℕ → (ℕ → A) → ℕ → A
fill g addr zero i table = table
fill g addr (suc n) i table = fill g addr n (i + 1) (update table (addr + i) (g i))

unfoldable pub exception : Byte → Byte → Bytes
exception fc code = bit_or fc exception_bit ∷ code ∷ []

unfoldable pub read_bits : Bytes → Byte → (ℕ → Bool) → Bytes
read_bits pdu fc table =
    if not (length pdu == 5)
    then exception fc ex_illegal_value
    else let addr = uint16 pdu 1 in
      let qty = uint16 pdu 3 in
      if ltb qty 1 || ltb 2000 qty
      then exception fc ex_illegal_value
      else if ltb table_len (addr + qty)
      then exception fc ex_illegal_address
      else let byte_count = (qty + 7) / 8 in
        let out = set (make (2 + byte_count)) 0 fc in
        let out = set out 1 (u8 byte_count) in put_bits (λ i. table (addr + i)) 2 qty 0 out

unfoldable pub read_regs : Bytes → Byte → (ℕ → ℕ) → Bytes
read_regs pdu fc table =
    if not (length pdu == 5)
    then exception fc ex_illegal_value
    else let addr = uint16 pdu 1 in
      let qty = uint16 pdu 3 in
      if ltb qty 1 || ltb 125 qty
      then exception fc ex_illegal_value
      else if ltb table_len (addr + qty)
      then exception fc ex_illegal_address
      else let out = set (make (2 + qty * 2)) 0 fc in
        let out = set out 1 (u8 (qty * 2)) in put_words (λ i. table (addr + i)) 2 qty 0 out

unfoldable pub write_single_coil : Server → Bytes → Bytes × Server
write_single_coil s pdu =
    if not (length pdu == 5)
    then (exception fc_write_single_coil ex_illegal_value, s)
    else let addr = uint16 pdu 1 in
      let val = uint16 pdu 3 in
      if not (val == 0xFF00) && not (val == 0x0000)
      then (exception fc_write_single_coil ex_illegal_value, s)
      else (
        fc_write_single_coil ∷ drop 1 pdu,
        record s { coils = update s.coils addr (val == 0xFF00) },
      )

unfoldable pub write_single_register : Server → Bytes → Bytes × Server
write_single_register s pdu =
    if not (length pdu == 5)
    then (exception fc_write_single_register ex_illegal_value, s)
    else let addr = uint16 pdu 1 in
      let val = uint16 pdu 3 in
      (fc_write_single_register ∷ drop 1 pdu, record s { holding = update s.holding addr val })

-- `resp := make([]byte, 5); resp[0] = fc; copy(resp[1:5], pdu[1:5])`
unfoldable pub echo : Byte → Bytes → Bytes
echo fc pdu = fc ∷ take 4 (drop 1 pdu)

unfoldable pub write_multiple_coils : Server → Bytes → Bytes × Server
write_multiple_coils s pdu =
    if ltb (length pdu) 6
    then (exception fc_write_multiple_coils ex_illegal_value, s)
    else let addr = uint16 pdu 1 in
      let qty = uint16 pdu 3 in
      let byte_count = at pdu 5 in
      if ltb qty 1
        || ltb 1968 qty
        || not (byte_count == (qty + 7) / 8)
        || not (length pdu == 6 + byte_count)
      then (exception fc_write_multiple_coils ex_illegal_value, s)
      else if ltb table_len (addr + qty)
      then (exception fc_write_multiple_coils ex_illegal_address, s)
      else (
        echo fc_write_multiple_coils pdu,
        record s { coils = fill (λ i. bit_at pdu 6 i) addr qty 0 s.coils },
      )

unfoldable pub write_multiple_registers : Server → Bytes → Bytes × Server
write_multiple_registers s pdu =
    if ltb (length pdu) 6
    then (exception fc_write_multiple_regs ex_illegal_value, s)
    else let addr = uint16 pdu 1 in
      let qty = uint16 pdu 3 in
      let byte_count = at pdu 5 in
      if ltb qty 1
        || ltb 123 qty
        || not (byte_count == qty * 2)
        || not (length pdu == 6 + byte_count)
      then (exception fc_write_multiple_regs ex_illegal_value, s)
      else if ltb table_len (addr + qty)
      then (exception fc_write_multiple_regs ex_illegal_address, s)
      else (
        echo fc_write_multiple_regs pdu,
        record s { holding = fill (λ i. uint16 pdu (6 + 2 * i)) addr qty 0 s.holding },
      )

unfoldable pub dispatch : Server → Bytes → Bytes × Server
dispatch s pdu =
    if length pdu == 0
    then (exception 0 ex_illegal_function, s)
    else let fc = at pdu 0 in
      if fc == fc_read_coils
      then (read_bits pdu fc s.coils, s)
      else if fc == fc_read_discrete_inputs
      then (read_bits pdu fc s.discrete, s)
      else if fc == fc_read_holding_registers
      then (read_regs pdu fc s.holding, s)
      else if fc == fc_read_input_registers
      then (read_regs pdu fc s.input, s)
      else if fc == fc_write_single_coil
      then write_single_coil s pdu
      else if fc == fc_write_single_register
      then write_single_register s pdu
      else if fc == fc_write_multiple_coils
      then write_multiple_coils s pdu
      else if fc == fc_write_multiple_regs
      then write_multiple_registers s pdu
      else (exception fc ex_illegal_function, s)
