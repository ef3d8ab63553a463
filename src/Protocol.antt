-- ===== src/Protocol.antt =====
-- internal/protocol/driver.go: the data that every driver returns. A `time.Time` is read from the
-- clock and left out; `interface{}` is the sum of the types that the program stores there.
use otcat.Base.{ℕ, Bool, List, Text, codes}
use otcat.Modbus.Convert.{Scalar}

pub data Quality : Type 0 where
  good bad stale : Quality

unfoldable pub quality_string : Quality → Text
quality_string good = codes "good"
quality_string bad = codes "bad"
quality_string stale = codes "stale"

pub data Payload : Type 0 where
  flag : Bool → Payload
  flags : List Bool → Payload
  scalar : Scalar → Payload
  scalars : List Scalar → Payload
  text : Text → Payload

-- `raw` is empty where the source leaves it nil.
pub record Value : Type 0 where
  pub address : Text
  pub type_name : Text
  pub value : Payload
  pub quality : Quality
  pub raw : List ℕ

-- An empty text or list is a field that the source leaves out.
pub record WritePlan : Type 0 where
  pub driver : Text
  pub address : Text
  pub literal : Text
  pub type_name : Text
  pub registers : List ℕ
  pub coils : List Bool
