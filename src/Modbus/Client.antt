-- ===== src/Modbus/Client.antt =====
-- internal/modbus/client.go. A method takes the client and returns its result with the client that
-- it leaves. The client's mutex makes each method atomic, so a run of several callers is a sequence
-- of such calls. Deadlines are the transport's: the errors that they cause are among its results.
pub mod Exchange
pub mod Lost
use otcat.Base.{
  ℕ, ◌+◌, ◌-◌, ◌%◌, ◌^◌, Bool, true, false, not, ◌||◌, Option, some, none, List, ◌++◌, ltb, ◌==◌,
  if◌then◌else◌, length, bit_and, Text,
}
use otcat.Base.Bytes.{Byte, Bytes, at, u16}
use otcat.Errors.{
  Error, NetError, IoResult, done, failed, Result, ok, err, ExceptionError, exception_response,
  not_connected, dial_failed, deadline_failed, write_failed, read_header_failed, read_pdu_failed,
  close_failed, transaction_mismatch, empty_pdu, function_mismatch, quantity_out_of_range,
}
use otcat.Modbus.Mbap.{MbapHeader, encode_mbap, decode_mbap, mbap_len, protocol_id}
use otcat.Modbus.Pdu.{
  exception_bit, as_exception, encode_read_request, encode_write_single_coil,
  encode_write_single_register, encode_write_multiple_registers, encode_write_multiple_coils,
  decode_read_bits_response, decode_read_registers_response, decode_write_echo, func_read_coils,
  func_read_discrete_inputs, func_read_holding_registers, func_read_input_registers, coil_on,
  coil_off, max_read_bits, max_read_registers,
}
use otcat.Modbus.Transport.{Transport}

-- A nil connection is `none`. Durations are in nanoseconds.
pub record Client (Conn : Type 0) : Type 0 where
  pub addr : Text
  pub unit_id : ℕ  -- byte
  pub timeout : ℕ
  pub conn : Option Conn
  pub tx_id : ℕ  -- uint32

abbrev pub M : Type 0 → Type 0 → Type 0
M Conn A = Client Conn → Result A × Client Conn

module _ {Conn : Type 0} where
  abbrev pub continue_with {ℓ} :
      {A : Type 0} {B : Type ℓ}
      → (A → Client Conn → Result B × Client Conn)
      → Result A × Client Conn
      → Result B × Client Conn
  continue_with f (ok a, c) = f a c
  continue_with f (err e, c) = (err e, c)

  infixl 5 ◌>>=◌ ◌>>◌
  abbrev pub ◌>>=◌ : {A B : Type 0} → M Conn A → (A → M Conn B) → M Conn B
  ◌>>=◌ m f c = continue_with f (m c)

  abbrev pub ◌>>◌ : {B : Type 0} → M Conn (Unit {0}) → M Conn B → M Conn B
  m >> k = m >>= λ _. k

  abbrev pub pure : {A : Type 0} → A → M Conn A
  pure a c = (ok a, c)

  abbrev pub lift : {A : Type 0} → Result A → M Conn A
  lift r c = (r, c)

  -- `if test { return err }`
  abbrev pub fail_if : Bool → Error → M Conn (Unit {0})
  fail_if test e c = if test then (err e, c) else (ok tt, c)

  abbrev pub get_unit_id : M Conn ℕ
  get_unit_id c = (ok c.unit_id, c)

  unfoldable pub next_tx_id : M Conn ℕ
  next_tx_id c = let id = (c.tx_id + 1) % 2 ^ 32 in (ok (u16 id), record c { tx_id = id })

  -- The exception branch of `do`.
  unfoldable pub reject_exception : Bytes → ℕ → M Conn (Unit {0})
  reject_exception resp tx c = elim (as_exception resp) [
    | none ↦ (ok tt, c)
    | some code ↦ (
      err (
          exception_response (record {
            function = bit_and (at resp 0) 0x7F;
            exception = code;
            unit_id = c.unit_id;
            transaction_id = tx;
          })),
      c,
    )
  ]

-- The two options; `new_client` applies them to the defaults, as `NewClient` does.
abbrev pub ClientOption : Type 0 → Type 0
ClientOption Conn = Client Conn → Client Conn

module _ {Conn : Type 0} where
  unfoldable pub with_unit_id : ℕ → ClientOption Conn
  with_unit_id id c = record c { unit_id = id }

  unfoldable pub with_timeout : ℕ → ClientOption Conn
  with_timeout d c = record c { timeout = d }

  apply_options : Client Conn → List (ClientOption Conn) → Client Conn
  apply_options c List.[] = c
  apply_options c (List.◌∷◌ opt opts) = apply_options (opt c) opts

  unfoldable pub new_client : Text → List (ClientOption Conn) → Client Conn
  unfolding apply_options
  new_client addr opts =
      apply_options
        (record { addr = addr; unit_id = 1; timeout = 5_000_000_000; conn = none; tx_id = 0 }) opts

module _ (t : Transport) where
  open t use {Conn, set_deadline, write, read_full, close}

  -- `dialed` is what `DialContext` returned.
  unfoldable pub connect : IoResult Conn → M Conn (Unit {0})
  connect (done k) c = (ok tt, record c { conn = some k })
  connect (failed e) c = (err (dial_failed e), c)

  unfoldable pub close_client : M Conn (Unit {0})
  close_client c = elim c.conn [
    | none ↦ (ok tt, c)
    | some k ↦
        (elim (close k) [ none ↦ ok tt | some e ↦ err (close_failed e) ], record c { conn = none })
  ]

  -- The calls on the connection that `do` makes. It has checked that there is one.
  unfoldable pub check_deadline : M Conn (Unit {0})
  check_deadline c = elim c.conn [
    | none ↦ (err not_connected, c)
    | some k ↦ elim (set_deadline k) [ none ↦ (ok tt, c) | some e ↦ (err (deadline_failed e), c) ]
  ]

  unfoldable pub send : Bytes → M Conn (Unit {0})
  send frame c = elim c.conn [
    | none ↦ (err not_connected, c)
    | some k ↦
        let (e, k') = write k frame in
        (elim e [ none ↦ ok tt | some e ↦ err (write_failed e) ], record c { conn = some k' })
  ]

  unfoldable pub receive : ℕ → (NetError → Error) → M Conn Bytes
  receive n wrap c = elim c.conn [
    | none ↦ (err not_connected, c)
    | some k ↦
        let (r, k') = read_full k n in
        (elim r [ done b ↦ ok b | failed e ↦ err (wrap e) ], record c { conn = some k' })
  ]

  -- What `do` does with the response once it is read.
  unfoldable pub check_response : Bytes → Bytes → ℕ → M Conn Bytes
  check_response pdu resp tx = do
    fail_if (length resp == 0) empty_pdu
    reject_exception resp tx
    fail_if (not (at resp 0 == at pdu 0)) function_mismatch
    pure resp

  unfoldable pub do_request : Bytes → M Conn Bytes
  do_request pdu = do
    check_deadline
    tx ← next_tx_id
    unit ← get_unit_id
    let header : MbapHeader = record {
      transaction_id = tx;
      protocol_id = protocol_id;
      length = u16 (length pdu + 1);
      unit_id = unit;
    }
    send (encode_mbap header ++ pdu)
    buf ← receive mbap_len read_header_failed
    rh ← lift (decode_mbap buf)
    fail_if (not (rh.transaction_id == tx)) transaction_mismatch
    resp ← receive (rh.length - 1) read_pdu_failed
    check_response pdu resp tx

  -- The typed operations. A `quantity` below 1 is refused whether it is 0 or negative.
  unfoldable pub read_bits_with : Byte → ℕ → ℕ → M Conn (List Bool)
  read_bits_with fc address quantity = do
    fail_if (ltb quantity 1 || ltb max_read_bits quantity) quantity_out_of_range
    resp ← do_request (encode_read_request fc address (u16 quantity))
    lift (decode_read_bits_response resp quantity)

  unfoldable pub read_registers_with : Byte → ℕ → ℕ → M Conn (List ℕ)
  read_registers_with fc address quantity = do
    fail_if (ltb quantity 1 || ltb max_read_registers quantity) quantity_out_of_range
    resp ← do_request (encode_read_request fc address (u16 quantity))
    lift (decode_read_registers_response resp quantity)

  unfoldable pub read_coils : ℕ → ℕ → M Conn (List Bool)
  unfolding read_bits_with
  read_coils address quantity = read_bits_with func_read_coils address quantity

  unfoldable pub read_discrete_inputs : ℕ → ℕ → M Conn (List Bool)
  unfolding read_bits_with
  read_discrete_inputs address quantity = read_bits_with func_read_discrete_inputs address quantity

  unfoldable pub read_holding_registers : ℕ → ℕ → M Conn (List ℕ)
  unfolding read_registers_with
  read_holding_registers address quantity =
      read_registers_with func_read_holding_registers address quantity

  unfoldable pub read_input_registers : ℕ → ℕ → M Conn (List ℕ)
  unfolding read_registers_with
  read_input_registers address quantity =
      read_registers_with func_read_input_registers address quantity

  unfoldable pub write_single_coil : ℕ → Bool → M Conn (Unit {0})
  write_single_coil address on = do
    resp ← do_request (encode_write_single_coil address on)
    lift (decode_write_echo resp address (if on then coil_on else coil_off))

  unfoldable pub write_single_register : ℕ → ℕ → M Conn (Unit {0})
  write_single_register address value = do
    resp ← do_request (encode_write_single_register address value)
    lift (decode_write_echo resp address value)

  unfoldable pub write_multiple_registers : ℕ → List ℕ → M Conn (Unit {0})
  write_multiple_registers address values = do
    req ← lift (encode_write_multiple_registers address values)
    resp ← do_request req
    lift (decode_write_echo resp address (u16 (length values)))

  unfoldable pub write_multiple_coils : ℕ → List Bool → M Conn (Unit {0})
  write_multiple_coils address values = do
    req ← lift (encode_write_multiple_coils address values)
    resp ← do_request req
    lift (decode_write_echo resp address (u16 (length values)))
