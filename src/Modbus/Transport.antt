-- ===== src/Modbus/Transport.antt =====
-- The connection under the client: Go's `net.Conn`, with `io.ReadFull` over it. It is the standard
-- library's and the network's, so it is a parameter: a type of connection states and the calls that
-- the client makes, each with the state that it leaves.
use otcat.Base.{ℕ, Option, ◌≡◌, length}
use otcat.Base.Bytes.{Bytes}
use otcat.Errors.{NetError, IoResult, done}

pub record Transport : Type 1 where
  pub Conn : Type 0
  pub set_deadline : Conn → Option NetError
  pub write : Conn → Bytes → Option NetError × Conn
  pub read_full : Conn → ℕ → IoResult Bytes × Conn
  pub close : Conn → Option NetError
  -- `io.ReadFull` returns no error only if it filled its buffer.
  pub read_full_fills : (k : Conn) (n : ℕ) (b : Bytes) → (read_full k n).0 ≡ done b → length b ≡ n
