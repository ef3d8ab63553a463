-- ===== src/Runs/Plants.antt =====
-- cmd/otcat-mockplc and the connections of internal/mock at concrete inputs. The float64 is a number of
-- 10^-9, with no fractions below and nothing below zero.
use otcat.Base.{
  ℕ, ◌+◌, ◌-◌, ◌*◌, ◌/◌, ◌%◌, ◌^◌, ◌≡◌, refl, [], ◌∷◌, some, arith, ltb, if◌then◌else◌, codes, true,
}
use otcat.Base.Bytes.{Bytes}
use otcat.Errors.{ok}
use otcat.Modbus.Client.{Client, read_holding_registers}
use otcat.Mock.Server.{dispatch, Server}
use otcat.Mock.Server.Setup.{set_holding, set_coil, set_holding_range}
use otcat.Mock.Connection.{Peer}
use otcat.Mock.Connection.Rounds.{arrive}
use otcat.Mock.Connection.Segments.{settle, receive_all, concat, receive_all-concat}
use otcat.Mock.Link.{link}
use otcat.Mock.Link.Calls.{IsReady}
use otcat.Mock.Process.{new_tank_process, step, Float64, IsFloat64, percent_x100}
use otcat.Mock.Plant.{
  stepped, new_server, seed, Plant, start, request, drive_steps, Reach, here, next,
}
use otcat.Mock.Plant.Reachable.{IsSound, plant-IsSound}
use otcat.Mock.Plant.Published.{drive_once, read-drive_once}
use otcat.Runs.Wire.{peer}

abbrev pub fixed : Float64
fixed = record {
  F = ℕ;
  lit = λ m k. m * 10 ^ (9 - k);
  add = λ x y. x + y;
  sub = λ x y. x - y;
  mul = λ x y. x * y / 1_000_000_000;
  div = λ x y. x * 1_000_000_000 / y;
  max = λ x y. if ltb x y then y else x;
  min = λ x y. if ltb x y then x else y;
  sqrt = λ x. x;
  round = λ x. (x + 500_000_000) / 1_000_000_000 * 1_000_000_000;
  lt = ltb;
  to_uint16 = λ x. x / 1_000_000_000 % 65536;
}

pub fixed-IsFloat64 : IsFloat64 fixed
fixed-IsFloat64 = record {
  lit_not_below = λ m k. ground arith;
  not_below_itself = λ v. ground arith;
  to_uint16-lt = λ v. omega arith;
}

abbrev seeded : Server
seeded =
    set_coil 0 true
      (set_holding 201 0x0FDB (set_holding 200 0x4049 (set_holding 100 0x1234 new_server)))

seeded_lem : seed new_server ≡ some seeded
unfolding seed set_holding_range
seeded_lem = refl

-- A request to write register 0, and a pass of `Drive` around it.
abbrev write_zero : Bytes
write_zero = 6 ∷ 0 ∷ 0 ∷ 0 ∷ 7 ∷ []

abbrev driven : Plant fixed
driven = record (start fixed seeded) {
  process = step fixed (new_tank_process fixed);
  drive = stepped;
}

abbrev written : Plant fixed
written = record driven { server = (dispatch seeded write_zero).1 }

written_reached : Reach fixed 0 (start fixed seeded) written
written_reached =
    next (next here (drive_steps (start fixed seeded) refl))
      (request driven write_zero (ground arith))

plant-IsSound_example : IsSound fixed fixed-IsFloat64 written
plant-IsSound_example =
    plant-IsSound fixed fixed-IsFloat64 0 seeded written seeded_lem written_reached

abbrev driven_peer : Peer
driven_peer = record peer { server = (drive_once fixed 0 (start fixed seeded)).server }

abbrev driven_client : Client Peer
driven_client = record {
  addr = codes "127.0.0.1:15020";
  unit_id = 1;
  timeout = 5;
  conn = some driven_peer;
  tx_id = 0;
}

driven_client-IsReady : IsReady driven_client driven_peer
driven_client-IsReady = record {
  connection = refl;
  idle = record { no_inbound = refl; no_outbound = refl; opened = refl; no_drops = refl };
}

read-drive_once_example :
    Reach fixed 0 (start fixed seeded) (drive_once fixed 0 (start fixed seeded))
    × (read_holding_registers link 0 1 driven_client ≡ (
      ok (percent_x100 fixed (drive_once fixed 0 (start fixed seeded)).process ∷ []),
      record driven_client { tx_id = 1 },
    ))
read-drive_once_example =
    read-drive_once fixed fixed-IsFloat64 0 (start fixed seeded) driven_client driven_peer
      (plant-IsSound fixed fixed-IsFloat64 0 seeded (start fixed seeded) seeded_lem here) refl
      driven_client-IsReady refl (omega arith)

-- A request for register 10 that arrives in two segments.
abbrev first_segment : Bytes
first_segment = 0 ∷ 9 ∷ 0 ∷ 0 ∷ 0 ∷ 6 ∷ 1 ∷ 3 ∷ []

abbrev second_segment : Bytes
second_segment = 0 ∷ 10 ∷ 0 ∷ 1 ∷ []

receive_all-concat_example :
    receive_all (first_segment ∷ second_segment ∷ []) peer
    ≡ settle (arrive (concat (first_segment ∷ second_segment ∷ [])) peer)
receive_all-concat_example = receive_all-concat first_segment (second_segment ∷ []) peer
