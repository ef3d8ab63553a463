-- ===== src/Mock/Plant/Published.antt =====
-- What a client of internal/modbus reads of the register that `Drive` of internal/mock/process.go writes.
use otcat.Base.{sym, subst, ℕ, ◌<◌, ◌≡◌, refl, ◌∙◌, ap, [], ◌∷◌, arith}
use otcat.Errors.{ok}
use otcat.Modbus.Client.{Client, read_holding_registers}
use otcat.Mock.Server.{table_len}
use otcat.Mock.Server.Setup.{set_holding}
use otcat.Mock.Process.{Float64, IsFloat64, step, percent_x100}
use otcat.Mock.Connection.{Peer}
use otcat.Mock.Link.{link}
use otcat.Mock.Link.Calls.{IsReady, tx_of}
use otcat.Mock.Link.Registers.{read_holding_registers_lem}
use otcat.Mock.Plant.{
  Plant, waiting, drive_steps, drive_measures, drive_publishes, Reach, here, next,
}
use otcat.Mock.Plant.Reachable.{IsSound, Reach-IsSound}

module _ (f : Float64) where
  -- One whole pass of the loop of `Drive`.
  unfoldable pub drive_once : ℕ → Plant f → Plant f
  drive_once addr p =
      let stepped = step f p.process in
      record p { server = set_holding addr (percent_x100 f stepped) p.server; process = stepped }

  drive_once-Reach :
      (addr : ℕ) (p : Plant f) → p.drive ≡ waiting → Reach f addr p (drive_once addr p)
  unfolding drive_once
  drive_once-Reach addr p w =
      let one : Reach f addr p _ = next here (drive_steps p w) in
      let two : Reach f addr p _ = next one (drive_measures _ refl) in
      let three : Reach f addr p _ =
        next two (drive_publishes _ (percent_x100 f (step f p.process)) refl) in
      subst (Reach f addr p)
        (ap
          (λ d. record p {
            server = set_holding addr (percent_x100 f (step f p.process)) p.server;
            process = step f p.process;
            drive = d;
          })
          (sym w))
        three

  -- In a sound state, whose server's words fit and whose level is not below zero, and in which `Drive` waits
  -- for its ticker, where no constant of the float64 is below zero, no number is below itself and a uint16
  -- has 16 bits: a pass of its loop is reached by its steps, and then a client with an idle connection to the server reads from the driven
  -- register the level's percentage, and nothing else of the client changes than its transaction number.
  pub read-drive_once :
      (laws : IsFloat64 f) (addr : ℕ) (p : Plant f) (c : Client Peer) (k : Peer)
      → IsSound f laws p
      → p.drive ≡ waiting
      → IsReady c k
      → k.server ≡ (drive_once addr p).server
      → addr < table_len
      → Reach f addr p (drive_once addr p)
        × (read_holding_registers link addr 1 c
            ≡ (ok (percent_x100 f (drive_once addr p).process ∷ []), record c { tx_id = tx_of c }))
  unfolding drive_once set_holding
  read-drive_once laws addr p c k sound w ready same range =
      let reached = drive_once-Reach addr p w in
      let valid = (Reach-IsSound f laws addr sound reached).valid in
      (
        reached,
        read_holding_registers_lem c k addr 1 ready (λ j. rw same (valid.holding_words j))
              (omega arith) (omega arith) (omega arith)
            ∙ rw same (ground arith),
      )
