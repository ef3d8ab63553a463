-- ===== src/Mock/Server/Invariant.antt =====
-- `dispatch` of internal/mock/server.go on any request: the size of its answer, the width of the
-- stored words, and that a refused request changes nothing.
use otcat.Base.{ℕ, ◌+◌, ◌-◌, ◌*◌, ◌≤◌, ◌≡◌, some, ◌∷◌, arith, length, drop, All}
use otcat.Base.Bytes.{Bytes, IsByte, IsU16, uint16, uint16-IsU16}
use otcat.Modbus.Pdu.{as_exception}
use otcat.Mock.Server.{
  Server, fill, echo, exception, write_multiple_registers, write_multiple_coils, write_single_coil,
  write_single_register, dispatch,
}
use otcat.Mock.Server.Reads.{Fits, read_bits-Fits, read_regs-Fits}
use otcat.Mock.Server.Writes.{fill_lem}

echo-Fits : (fc : ℕ) (pdu : Bytes) → 6 ≤ length pdu → Fits (echo fc pdu)
unfolding echo
echo-Fits fc (b0 ∷ b1 ∷ b2 ∷ b3 ∷ b4 ∷ rest) h = omega arith
echo-Fits fc _ h = absurd (omega arith)

single-Fits : (fc : ℕ) (pdu : Bytes) → length pdu ≡ 5 → Fits (fc ∷ drop 1 pdu)
single-Fits fc (b0 ∷ rest) h = omega arith
single-Fits fc _ h = absurd (omega arith)

-- Every request is answered with 2 to 253 bytes.
pub dispatch-Fits : (s : Server) (pdu : Bytes) → Fits (dispatch s pdu).0
unfolding dispatch write_single_coil write_single_register write_multiple_coils
    write_multiple_registers exception
dispatch-Fits s pdu = ground (
  arith,
  read_bits-Fits pdu 0x01 s.coils,
  read_bits-Fits pdu 0x02 s.discrete,
  read_regs-Fits pdu 0x03 s.holding,
  read_regs-Fits pdu 0x04 s.input,
  echo-Fits 0x0F pdu,
  echo-Fits 0x10 pdu,
  single-Fits 0x05 pdu,
  single-Fits 0x06 pdu,
)

-- If the answer to a request is an exception, the server's four tables are as they were.
pub dispatch_refused :
    (s : Server) (pdu : Bytes) (code : ℕ)
    → as_exception (dispatch s pdu).0 ≡ some code
    → (dispatch s pdu).1 ≡ s
unfolding dispatch write_single_coil write_single_register write_multiple_coils
    write_multiple_registers as_exception echo
dispatch_refused s pdu code h = ground arith

-- The words that the server stores are 16-bit words.
pub record IsValid (s : Server) : Type 0 where
  pub holding_words : (j : ℕ) → IsU16 (s.holding j)
  pub input_words : (j : ℕ) → IsU16 (s.input j)

fill-IsU16 :
    (g : ℕ → ℕ) (addr n : ℕ) (table : ℕ → ℕ) (j : ℕ)
    → ((i : ℕ) → IsU16 (g i))
    → IsU16 (table j)
    → IsU16 (fill g addr n 0 table j)
fill-IsU16 g addr n table j hg ht = ground (arith, fill_lem g addr n 0 table j, hg (j - addr))

dispatch_holding-IsU16 :
    (s : Server) (pdu : Bytes) (j : ℕ)
    → All IsByte pdu
    → IsU16 (s.holding j)
    → IsU16 ((dispatch s pdu).1.holding j)
unfolding dispatch write_single_coil write_single_register write_multiple_coils
    write_multiple_registers
dispatch_holding-IsU16 s pdu j hb h = ground (
  arith,
  fill-IsU16 (λ i. uint16 pdu (6 + 2 * i)) (uint16 pdu 1) (uint16 pdu 3) s.holding j
      (λ i. uint16-IsU16 pdu (6 + 2 * i) hb),
  uint16-IsU16 pdu 3 hb,
)

dispatch_input : (s : Server) (pdu : Bytes) → (dispatch s pdu).1.input ≡ s.input
unfolding dispatch write_single_coil write_single_register write_multiple_coils
    write_multiple_registers
dispatch_input s pdu = ground arith

-- A request of bytes keeps the words in the server's two register tables 16-bit words.
pub dispatch-IsValid :
    (s : Server) (pdu : Bytes) → All IsByte pdu → IsValid s → IsValid (dispatch s pdu).1
dispatch-IsValid s pdu hb v = record {
  holding_words = λ j. dispatch_holding-IsU16 s pdu j hb (v.holding_words j);
  input_words = λ j. rw (dispatch_input s pdu) (v.input_words j);
}
