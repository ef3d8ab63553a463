-- ===== src/Modbus/Address/Bands.antt =====
-- How `ParseSpec` resolves a number: offsets stay below 65536, the classic band counts from 0, and
-- which offsets the classic reading hides.
use otcat.Base.{ℕ, ◌+◌, ◌≤◌, ◌≡◌, refl, ◌⊎◌, inl, inr, ◌↔◌, Bool, true, false, arith, Text}
use otcat.Base.Bytes.{IsU16}
use otcat.Errors.{ok}
use otcat.Modbus.Address.{Table, classic_base, Spec, resolve_offset, parse_spec}
use native.Mathlib.Decide.{dec_le}

-- A reference number inside the classic band of a table.
abbrev pub InBand : Table → ℕ → Type 0
InBand t n = (classic_base t ≤ n) × (n ≤ classic_base t + 9998)

-- A reference number inside its table's classic band stands for the offset counted from the base.
pub resolve_in_band :
    (t : Table) (k : ℕ) → k ≤ 9998 → resolve_offset t false (classic_base t + k) ≡ k
unfolding resolve_offset
resolve_in_band t k h = ground arith

pub resolve_out_of_band : (t : Table) (n : ℕ) → ¬ (InBand t n) → resolve_offset t false n ≡ n
unfolding resolve_offset
resolve_out_of_band t n h = ground arith

pub resolve_raw : (t : Table) (n : ℕ) → resolve_offset t true n ≡ n
unfolding resolve_offset
resolve_raw t n = refl

hides :
    (t : Table) (n offset : ℕ)
    → resolve_offset t false n ≡ offset
    → (offset ≤ 9998) ⊎ (¬ (InBand t offset))
unfolding resolve_offset
hides t n offset e = elim (dec_le offset 9998) [
  | yes h ↦ inl h
  | no h ↦ inr (λ inside. ground arith)
]

-- Without raw addressing some number stands for an offset exactly if the offset is at most 9998 or
-- lies outside its own table's classic band.
pub reachable_iff :
    (t : Table) (offset : ℕ)
    → ((n : ℕ) × (resolve_offset t false n ≡ offset)) ↔ ((offset ≤ 9998) ⊎ (¬ (InBand t offset)))
reachable_iff t offset = (
  λ p. hides t p.0 offset p.1,
  elim [
    | inl h ↦ (classic_base t + offset, resolve_in_band t offset h)
    | inr h ↦ (offset, resolve_out_of_band t offset h)
  ],
)

-- Every spec that is accepted has a 16-bit address.
pub parse_spec-IsU16 :
    (s : Text) (raw : Bool) (sp : Spec) → parse_spec s raw ≡ ok sp → IsU16 sp.address
unfolding parse_spec
parse_spec-IsU16 s raw sp h = ground arith
