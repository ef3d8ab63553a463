-- ===== src/Cliapp/Startup/Flags.antt =====
-- What `buildDriver` makes of a command line that `validate` has passed.
use otcat.Base.{◌≡◌, refl, true, none, arith, Text}
use otcat.Base.Int.{ℤ, pos, negsuc}
use otcat.Errors.{ok}
use otcat.Modbus.Convert.{parse_data_type, parse_byte_order, parse_word_order}
use otcat.Modbus.Driver.Encoding.{Options}
use otcat.Cliapp.Config.{Config, positive, validate}
use otcat.Cliapp.Config.Usable.{IsUsable, validate_iff}
use otcat.Cliapp.Startup.{modbus, with_port, nanoseconds, modbus_options, build_driver}

nanoseconds_lem : (d : ℤ) → positive d ≡ true → pos (nanoseconds d) ≡ d
nanoseconds_lem (pos n) h = refl
nanoseconds_lem (negsuc n) h = absurd (ground (arith, h))

-- Once `validate` has passed: if the Modbus driver is chosen, its unit, timeout and addressing are
-- those of the flags, its type and orders are what their flags parse to, and it dials the address of
-- the flag, with port 502 where none is given.
pub build_driver_ok :
    (c : Config) (addr : Text) (opt : Options)
    → validate c ≡ none
    → build_driver c ≡ ok (modbus addr opt)
    → (addr ≡ with_port c.modbus_addr)
      × (opt.unit_id ≡ c.unit_id)
      × (pos opt.timeout ≡ c.timeout)
      × (opt.raw_address ≡ c.raw_address)
      × (parse_data_type c.data_type ≡ ok opt.type)
      × (parse_byte_order c.byte_order ≡ ok opt.byte_order)
      × (parse_word_order c.word_order ≡ ok opt.word_order)
unfolding build_driver modbus_options
build_driver_ok c addr opt passed chosen =
    let u : IsUsable c = (validate_iff c).0 passed in
    ground (arith, u.unit, nanoseconds_lem c.timeout u.timeout, chosen)
