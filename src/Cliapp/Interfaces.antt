-- ===== src/Cliapp/Interfaces.antt =====
-- What internal/cliapp works with, each over a state of its own: `protocol.Driver` of
-- internal/protocol/driver.go, and standard output behind `codec.Encoder` of internal/codec/codec.go and
-- the JSON encoder of the dry run.
use otcat.Base.{Option, Text}
use otcat.Errors.{Error, Result}
use otcat.Protocol.{Value, WritePlan}

-- The error that `Close` returns is dropped by its one caller. `explain` is there for a `DryRunner`.
pub record Device : Type 1 where
  pub State : Type 0
  pub connect : State → Option Error × State
  pub close : State → State
  pub read : Text → State → Result Value × State
  pub write : Text → Text → State → Result (Unit {0}) × State
  pub explain : Option (Text → Text → Result WritePlan)

pub record Sink : Type 1 where
  pub Out : Type 0
  pub encode : Value → Out → Option Error × Out
  pub encode_plan : WritePlan → Out → Option Error × Out
