-- ===== src/Mock/Plant.antt =====
-- The goroutines of cmd/otcat-mockplc/main.go over the state that they share: connections that call
-- `dispatch`, the setters of internal/mock/server.go, and `Drive` of internal/mock/process.go. A step is
-- one critical section, so that the steps of all of them interleave freely.
pub mod Reachable
pub mod Published
use otcat.Base.{ℕ, ◌<◌, ◌^◌, ◌≡◌, Bool, true, false, Option, some, none, List, [], ◌∷◌, All}
use otcat.Base.Bytes.{Byte, Bytes, IsByte}
use otcat.Mock.Server.{Server, dispatch}
use otcat.Mock.Server.Setup.{set_holding, set_input, set_coil, set_discrete, set_holding_range}
use otcat.Mock.Process.{Float64, TankProcess, new_tank_process, set_setpoint, step, percent_x100}

-- The server as `NewAt` makes it.
abbrev pub new_server : Server
new_server = record { coils = λ j. false; discrete = λ j. false; holding = λ j. 0; input = λ j. 0 }

-- The register map that the program seeds; `none` is a panic.
unfoldable pub seed : Server → Option Server
seed s = elim (set_holding_range 200 (0x4049 ∷ 0x0FDB ∷ []) (set_holding 100 0x1234 s)) [
  | none ↦ none
  | some s' ↦ some (set_coil 0 true s')
]

-- Where `Drive` stands in its loop: at the select, behind `Step`, behind `PercentX100`, or returned.
pub data Driving : Type 0 where
  waiting stepped stopped : Driving
  measured : ℕ → Driving

module _ (f : Float64) where
  open f use {F}

  pub record Plant : Type 0 where
    pub server : Server
    pub process : TankProcess f
    pub drive : Driving

  abbrev pub start : Server → Plant
  start s = record { server = s; process = new_tank_process f; drive = waiting }

  -- `Drive` writes register `addr`; its setters take any uint16.
  pub data Step (addr : ℕ) : Plant → Plant → Type 0 where
    request :
        (p : Plant) (pdu : Bytes)
        → All IsByte pdu
        → Step addr p (record p { server = (dispatch p.server pdu).1 })
    holding_set :
        (p : Plant) (i v : ℕ)
        → v < 2 ^ 16
        → Step addr p (record p { server = set_holding i v p.server })
    input_set :
        (p : Plant) (i v : ℕ)
        → v < 2 ^ 16
        → Step addr p (record p { server = set_input i v p.server })
    coil_set :
        (p : Plant) (i : ℕ) (v : Bool) → Step addr p (record p { server = set_coil i v p.server })
    discrete_set :
        (p : Plant) (i : ℕ) (v : Bool)
        → Step addr p (record p { server = set_discrete i v p.server })
    setpoint_set :
        (p : Plant) (meters : F)
        → Step addr p (record p { process = set_setpoint f meters p.process })
    drive_steps :
        (p : Plant)
        → p.drive ≡ waiting
        → Step addr p (record p { process = step f p.process; drive = stepped })
    drive_measures :
        (p : Plant)
        → p.drive ≡ stepped
        → Step addr p (record p { drive = measured (percent_x100 f p.process) })
    drive_publishes :
        (p : Plant) (v : ℕ)
        → p.drive ≡ measured v
        → Step addr p (record p { server = set_holding addr v p.server; drive = waiting })
    drive_stops : (p : Plant) → p.drive ≡ waiting → Step addr p (record p { drive = stopped })

  pub data Reach (addr : ℕ) (p : Plant) : Plant → Type 0 where
    here : Reach addr p p
    next : {q r : Plant} → Reach addr p q → Step addr q r → Reach addr p r
