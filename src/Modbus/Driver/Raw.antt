-- ===== src/Modbus/Driver/Raw.antt =====
-- The raw words of the values that `Read` of internal/modbus/driver.go returns for registers.
use otcat.Base.{sym, ◌∙◌, ap, if◌then◌else◌, false, ℕ, ◌≡◌, refl, List, arith, Text}
use otcat.Errors.{Result, ok, err}
use otcat.Protocol.{Value, good}
use otcat.Modbus.Address.{is_bits, Spec, parse_spec, spec_string}
use otcat.Modbus.Convert.{register_count}
use otcat.Modbus.Transport.{Transport}
use otcat.Modbus.Client.{continue_with, Client, read_holding_registers, read_input_registers}
use otcat.Modbus.Driver.Encoding.{Options, is_holding}
use otcat.Modbus.Driver.Session.{register_value, read_registers, count_or, read}

register_value-raw :
    (opt : Options) (sp : Spec) (count : ℕ) (regs : List ℕ) (v : Value)
    → register_value opt sp count regs ≡ ok v
    → (v.raw ≡ regs) × (v.address ≡ spec_string sp) × (v.quality ≡ good)
unfolding register_value
register_value-raw opt sp count regs v h = ground (arith, h)

module _ (t : Transport) where
  -- The client's read that a spec of registers asks for.
  abbrev pub words_of : Options → Spec → Client t.Conn → Result (List ℕ) × Client t.Conn
  words_of opt sp c =
      (if is_holding sp.table
          then read_holding_registers t sp.address (count_or sp (register_count opt.type))
          else read_input_registers t sp.address (count_or sp (register_count opt.type)))
        c

  read_spec :
      (opt : Options) (spec : Text) (sp : Spec) (c : Client t.Conn)
      → parse_spec spec opt.raw_address ≡ ok sp
      → is_bits sp.table ≡ false
      → read t opt spec c ≡ read_registers t opt sp c
  unfolding read
  read_spec opt spec sp c h bits = ground (arith, h, bits)

  value_of : Options → Spec → List ℕ → Client t.Conn → Result Value × Client t.Conn
  value_of opt sp regs k = (register_value opt sp (count_or sp (register_count opt.type)) regs, k)

  read_registers_step :
      (opt : Options) (sp : Spec) (c : Client t.Conn)
      → read_registers t opt sp c ≡ continue_with (value_of opt sp) (words_of opt sp c)
  unfolding read_registers value_of
  read_registers_step opt sp c = refl

  -- Where a read of a register table succeeds, the value carries the registers that the client's read
  -- returned, all of them and in order, whatever the options are; its address is the canonical print of
  -- the spec, and its quality is good.
  pub read-raw :
      (opt : Options) (spec : Text) (sp : Spec) (v : Value) (c c' : Client t.Conn)
      → parse_spec spec opt.raw_address ≡ ok sp
      → is_bits sp.table ≡ false
      → read t opt spec c ≡ (ok v, c')
      → (v.address ≡ spec_string sp) × (v.quality ≡ good) × (words_of opt sp c ≡ (ok v.raw, c'))
  unfolding value_of
  read-raw opt spec sp v c c' h bits e =
      go (words_of opt sp c) refl
        (sym (read_registers_step opt sp c) ∙ sym (read_spec opt spec sp c h bits) ∙ e)
    where
      go :
          (r : Result (List ℕ) × Client t.Conn)
          → words_of opt sp c ≡ r
          → continue_with (value_of opt sp) r ≡ (ok v, c')
          → (v.address ≡ spec_string sp) × (v.quality ≡ good) × (words_of opt sp c ≡ (ok v.raw, c'))
      go (err f, k) q e = absurd (ground (arith, e))
      go (ok regs, k) q e =
          let found : register_value opt sp (count_or sp (register_count opt.type)) regs ≡ ok v =
            ap (λ x. x.0) e in
          let left : k ≡ c' = ap (λ x. x.1) e in
          let (raw, address, quality) =
            register_value-raw opt sp (count_or sp (register_count opt.type)) regs v found in
          let same : ◌≡◌ {A = Result (List ℕ) × Client t.Conn} (ok regs, k) (ok v.raw, c') =
            ground (arith, raw, left) in
          (address, quality, q ∙ same)
