-- ===== src/Errors.antt =====
-- The error values that the program makes or passes on, and Go's `(value, error)` results.
-- A constructor stands for a family of messages; their text is left out.
use otcat.Base.{ℕ, Bool, ◌≡◌, refl}

-- Errors that wrap `modbus.ErrInvalidInput`.
pub data InputError : Type 0 where
  bad_address_form unknown_table bad_address_number offset_too_big bad_count : InputError
  unknown_type unknown_byte_order unknown_word_order : InputError
  wrong_register_count bad_literal literal_out_of_range : InputError
  read_only_table bad_coil_value empty_coils count_not_multiple : InputError

-- What the standard library's network calls return. `net` is an error with a `Timeout` method.
pub data NetError : Type 0 where
  net : (timeout : Bool) → NetError
  eof unexpected_eof canceled : NetError

-- `modbus.ExceptionError`: a server's refusal of a request.
pub record ExceptionError : Type 0 where
  pub function : ℕ
  pub exception : ℕ
  pub unit_id : ℕ
  pub transaction_id : ℕ

pub data Error : Type 0 where
  invalid_input : InputError → Error
  exception_response : ExceptionError → Error
  not_implemented no_endpoint_selected unknown_format : Error
  short_mbap wrong_protocol_id length_too_small length_too_big : Error
  nothing_to_write too_many_values quantity_out_of_range : Error
  short_response byte_count_mismatch truncated_response : Error
  echo_address_mismatch echo_value_mismatch : Error
  not_connected transaction_mismatch empty_pdu function_mismatch : Error
  dial_failed deadline_failed write_failed read_header_failed read_pdu_failed close_failed :
      NetError → Error
  -- `ctx.Err()`: cancelled, or past its deadline.
  context_done : (deadline : Bool) → Error
  -- An error of the output that the program passes on as it is.
  output_failed : Error

-- The error is kept or the value, never both.
pub data Result {ℓ} (A : Type ℓ) : Type ℓ where
  err : Error → Result A
  ok : A → Result A

-- `if cond { return err }`
abbrev pub refuse_if : Bool → Error → Result (Unit {0})
refuse_if Bool.true e = err e
refuse_if Bool.false e = ok tt

infixl 5 ◌>>=◌ ◌>>◌
abbrev pub ◌>>=◌ {ℓ κ} : {T : Type ℓ} {U : Type κ} → Result T → (T → Result U) → Result U
err problem >>= next = err problem
ok value >>= next = next value

abbrev pub ◌>>◌ {ℓ} : {U : Type ℓ} → Result (Unit {0}) → Result U → Result U
check >> next = check >>= λ _. next

-- A chain that succeeds had a first step that did.
pub >>=-eq-ok {ℓ κ} :
    {T : Type ℓ} {U : Type κ} (step : Result T) (next : T → Result U) {result : U}
    → (step >>= next) ≡ ok result
    → (value : T) × (step ≡ ok value) × (next value ≡ ok result)
>>=-eq-ok (err problem) next same = cc
>>=-eq-ok (ok value) next same = (value, refl, same)

-- What a network call returns: Go's `(value, error)` with an error of the standard library.
pub data IoResult {ℓ} (A : Type ℓ) : Type ℓ where
  done : A → IoResult A
  failed : NetError → IoResult A
