-- ===== src/Runs/Frames.antt =====
-- The header, the requests and the responses of internal/modbus, and `dispatch` of internal/mock, at
-- concrete inputs.
use otcat.Base.{◌≡◌, refl, [], ◌∷◌, some, false}
use otcat.Modbus.Pdu.{as_exception}
use otcat.Mock.Server.{Server, dispatch, exception}
use otcat.Mock.Server.Invariant.{dispatch_refused}

abbrev plant : Server
plant = record { coils = λ _. false; discrete = λ _. false; holding = λ _. 0; input = λ _. 7 }

-- A function code that does not exist.
bad_pdu-refused : as_exception (dispatch plant (0x2B ∷ [])).0 ≡ some 1
unfolding dispatch exception as_exception
bad_pdu-refused = refl

dispatch_refused_example : (dispatch plant (0x2B ∷ [])).1 ≡ plant
dispatch_refused_example = dispatch_refused plant (0x2B ∷ []) 1 bad_pdu-refused
