-- ===== src/Modbus/Driver/Plans.antt =====
-- `ExplainWrite` of internal/modbus/driver.go against `Write`.
use otcat.Base.{ℕ, ◌≡◌, refl, true, Option, arith, length, Text, ◌<◌, if◌then◌else◌}
use otcat.Errors.{Result, ok, err, too_many_values}
use otcat.Protocol.{WritePlan}
use otcat.Modbus.Address.{Spec, writable, parse_spec, spec_string}
use otcat.Modbus.Transport.{Transport}
use otcat.Modbus.Client.{Client, M, write_multiple_coils}
use otcat.Modbus.Pdu.{max_write_bits, encode_write_multiple_coils}
use otcat.Modbus.Driver.Encoding.{
  Options, is_coil, Encoded, encode_values, encode_write, plan_of, explain_write,
}
use otcat.Modbus.Driver.Session.{send_coils, send_registers, write}

module _ (t : Transport) (parse_float : Text → Option ℕ) where
  open t use {Conn}

  -- The client's call that a plan shows, at the address of `sp`.
  pub carry_out : Spec → WritePlan → M Conn (Unit {0})
  carry_out sp plan =
      if is_coil sp.table
      then send_coils t sp.address plan.coils
      else send_registers t sp.address plan.registers

  -- How `Write` behaves where `ExplainWrite` returned `r`.
  abbrev pub Explains : Options → Text → Text → Client Conn → Result WritePlan → Type 0
  Explains opt spec literal c (err e) = write t parse_float opt spec literal c ≡ (err e, c)
  Explains opt spec literal c (ok plan) =
      (sp : Spec) × (parse_spec spec opt.raw_address ≡ ok sp)
      × (writable sp.table ≡ true)
      × (plan.address ≡ spec_string sp)
      × (write t parse_float opt spec literal c ≡ carry_out sp plan c)

  encode_write_ok :
      (opt : Options) (spec literal : Text) (w : Encoded)
      → encode_write parse_float opt spec literal ≡ ok w
      → (parse_spec spec opt.raw_address ≡ ok w.spec) × (writable w.spec.table ≡ true)
  unfolding encode_write encode_values
  encode_write_ok opt spec literal w h = ground arith

  -- For every spec and literal: where `ExplainWrite` fails, `Write` fails with the same error and leaves
  -- the client as it was; where it returns a plan, the spec names a writable table, the plan shows its
  -- address, and `Write` is the client's call of the plan's values there.
  pub write-explain_write :
      (opt : Options) (spec literal : Text) (c : Client Conn)
      → Explains opt spec literal c (explain_write parse_float opt spec literal)
  unfolding write explain_write plan_of carry_out
  write-explain_write opt spec literal c = by_cases (encode_write parse_float opt spec literal) refl
    where
      by_cases :
          (r : Result Encoded)
          → encode_write parse_float opt spec literal ≡ r
          → Explains opt spec literal c (explain_write parse_float opt spec literal)
      by_cases (err e) h = rw h (ground (arith, h))
      by_cases (ok w) h =
          let (parsed, can) = encode_write_ok opt spec literal w h in
          rw h (w.spec, parsed, can, refl, ground (arith, h))

  -- If a literal encodes to more than 1968 coils: `ExplainWrite` returns their plan, and `Write` refuses
  -- them with its over-limit error and leaves the client as it was.
  pub write_over_limit :
      (opt : Options) (spec literal : Text) (c : Client Conn) (w : Encoded)
      → encode_write parse_float opt spec literal ≡ ok w
      → is_coil w.spec.table ≡ true
      → max_write_bits < length w.coils
      → (explain_write parse_float opt spec literal ≡ ok (plan_of opt literal w))
        × (write t parse_float opt spec literal c ≡ (err too_many_values, c))
  unfolding write explain_write send_coils write_multiple_coils encode_write_multiple_coils
  write_over_limit opt spec literal c w h coil big = (ground (arith, h), ground (arith, h))
