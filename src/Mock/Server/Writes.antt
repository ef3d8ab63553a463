-- ===== src/Mock/Server/Writes.antt =====
-- The write handlers of internal/mock/server.go: what they store, what they leave alone, and the
-- echo that the client checks.
use otcat.Base.{
  ℕ, zero, suc, ◌+◌, ◌-◌, ◌*◌, ◌≤◌, ◌<◌, ◌≡◌, ap, ◌∙◌, Bool, false, ◌&&◌, List, ◌∷◌, arith, ltb,
  leb, length, get_or, if◌then◌else◌,
}
use mathlib.Core.Path.{fun_ext}
use otcat.Base.Bytes.{Bytes, at, uint16}
use otcat.Base.Bits.{bit_at}
use otcat.Modbus.Pdu.{coil_on, coil_off}
use otcat.Modbus.Pdu.Requests.{IsFive, IsWriteRegisters, IsWriteCoils}
use otcat.Mock.Server.{
  Server, update, fill, echo, write_multiple_registers, write_multiple_coils, write_single_coil,
  write_single_register, table_len, fc_write_multiple_regs, fc_write_multiple_coils,
  fc_write_single_register, fc_write_single_coil,
}

-- The loop stores `g k` at `addr + k`, and nothing else.
pub fill_lem :
    {A : Type 0} (g : ℕ → A) (addr n i : ℕ) (table : ℕ → A) (j : ℕ)
    → fill g addr n i table j
      ≡ (if leb (addr + i) j && ltb j (addr + i + n) then g (j - addr) else table j)
unfolding fill
fill_lem g addr zero i table j = ground arith
fill_lem g addr (suc n) i table j =
    ground (arith, fill_lem g addr n (i + 1) (update table (addr + i) (g i)) j)

-- What the two write-multiple handlers answer: function code, address and quantity.
pub record IsEcho (fc addr value : ℕ) (resp : Bytes) : Type 0 where
  pub code : at resp 0 ≡ fc
  pub first_word : uint16 resp 1 ≡ addr
  pub second_word : uint16 resp 3 ≡ value
  pub len : length resp ≡ 5

pub echo-IsEcho :
    (fc : ℕ) (pdu : Bytes) → 6 ≤ length pdu → IsEcho fc (uint16 pdu 1) (uint16 pdu 3) (echo fc pdu)
unfolding echo uint16
echo-IsEcho fc (b0 ∷ b1 ∷ b2 ∷ b3 ∷ b4 ∷ b5 ∷ rest) h = omega arith
echo-IsEcho fc _ h = absurd (omega arith)

-- The table after a block write.
abbrev pub overwritten {ℓ} : {A : Type ℓ} → ℕ → List A → A → (ℕ → A) → ℕ → A
overwritten addr values d table j =
    if leb addr j && ltb j (addr + length values) then get_or values (j - addr) d else table j

write_multiple_registers_accepted :
    (s : Server) (addr : ℕ) (values : List ℕ) (pdu : Bytes)
    → IsWriteRegisters addr values pdu
    → 1 ≤ length values
    → length values ≤ 123
    → addr + length values ≤ table_len
    → write_multiple_registers s pdu ≡ (
      echo fc_write_multiple_regs pdu,
      record s { holding = fill (λ i. uint16 pdu (6 + 2 * i)) addr (length values) 0 s.holding },
    )
unfolding write_multiple_registers
write_multiple_registers_accepted s addr values pdu v lo hi range =
    rw (v.len, v.header.start, v.header.quantity_field, v.header.count_field) (ground arith)

write_multiple_coils_accepted :
    (s : Server) (addr : ℕ) (values : List Bool) (pdu : Bytes)
    → IsWriteCoils addr values pdu
    → 1 ≤ length values
    → length values ≤ 1968
    → addr + length values ≤ table_len
    → write_multiple_coils s pdu ≡ (
      echo fc_write_multiple_coils pdu,
      record s { coils = fill (λ i. bit_at pdu 6 i) addr (length values) 0 s.coils },
    )
unfolding write_multiple_coils
write_multiple_coils_accepted s addr values pdu v lo hi range =
    rw (v.len, v.header.start, v.header.quantity_field, v.header.count_field) (ground arith)

-- The loop over the values is the block write.
fill-overwritten :
    {A : Type 0} (g : ℕ → A) (addr : ℕ) (values : List A) (d : A) (table : ℕ → A)
    → ((i : ℕ) → i < length values → g i ≡ get_or values i d)
    → fill g addr (length values) 0 table ≡ overwritten addr values d table
fill-overwritten g addr values d table h =
    fun_ext λ j. ground (arith, fill_lem g addr (length values) 0 table j, h (j - addr))

pub write_multiple_registers_lem :
    (s : Server) (addr : ℕ) (values : List ℕ) (pdu : Bytes)
    → IsWriteRegisters addr values pdu
    → 1 ≤ length values
    → length values ≤ 123
    → addr + length values ≤ table_len
    → write_multiple_registers s pdu ≡ (
      echo fc_write_multiple_regs pdu,
      record s { holding = overwritten addr values 0 s.holding },
    )
write_multiple_registers_lem s addr values pdu v lo hi range =
    write_multiple_registers_accepted s addr values pdu v lo hi range
    ∙ ap (λ t. (echo fc_write_multiple_regs pdu, record s { holding = t }))
        (fill-overwritten _ addr values 0 s.holding v.words)

pub write_multiple_coils_lem :
    (s : Server) (addr : ℕ) (values : List Bool) (pdu : Bytes)
    → IsWriteCoils addr values pdu
    → 1 ≤ length values
    → length values ≤ 1968
    → addr + length values ≤ table_len
    → write_multiple_coils s pdu ≡ (
      echo fc_write_multiple_coils pdu,
      record s { coils = overwritten addr values false s.coils },
    )
write_multiple_coils_lem s addr values pdu v lo hi range =
    write_multiple_coils_accepted s addr values pdu v lo hi range
    ∙ ap (λ t. (echo fc_write_multiple_coils pdu, record s { coils = t }))
        (fill-overwritten _ addr values false s.coils v.bits)

-- A single write answers its request as it came.
pub write_single_register_lem :
    (s : Server) (addr value : ℕ) (pdu : Bytes)
    → IsFive fc_write_single_register addr value pdu
    → write_single_register s pdu ≡ (pdu, record s { holding = update s.holding addr value })
unfolding write_single_register
write_single_register_lem s addr value pdu v =
    rw (v.len, v.first_word, v.second_word) (ground arith)

pub write_single_coil_lem :
    (s : Server) (addr : ℕ) (on : Bool) (pdu : Bytes)
    → IsFive fc_write_single_coil addr (if on then coil_on else coil_off) pdu
    → write_single_coil s pdu ≡ (pdu, record s { coils = update s.coils addr on })
unfolding write_single_coil
write_single_coil_lem s addr on pdu v = rw (v.len, v.first_word, v.second_word) (ground arith)
