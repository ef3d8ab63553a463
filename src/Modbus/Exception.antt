-- ===== src/Modbus/Exception.antt =====
-- internal/modbus/exception.go: the exception codes and their names.
use otcat.Base.{ℕ, ◌+◌, ◌-◌, ◌/◌, ◌%◌, [], ◌∷◌, ◌++◌, ltb, ◌==◌, if◌then◌else◌, Text, codes}

-- An `ExceptionCode` is any byte; these are the ones with a name.
abbrev pub ex_illegal_function : ℕ
ex_illegal_function = 0x01

abbrev pub ex_illegal_data_address : ℕ
ex_illegal_data_address = 0x02

abbrev pub ex_illegal_data_value : ℕ
ex_illegal_data_value = 0x03

abbrev pub ex_server_device_failure : ℕ
ex_server_device_failure = 0x04

abbrev pub ex_acknowledge : ℕ
ex_acknowledge = 0x05

abbrev pub ex_server_device_busy : ℕ
ex_server_device_busy = 0x06

abbrev pub ex_memory_parity_error : ℕ
ex_memory_parity_error = 0x08

abbrev pub ex_gateway_path_unavailable : ℕ
ex_gateway_path_unavailable = 0x0A

abbrev pub ex_gateway_target_device_failed_to_respond : ℕ
ex_gateway_target_device_failed_to_respond = 0x0B

-- One digit of `%X`.
hex_digit : ℕ → ℕ
hex_digit d = if ltb d 10 then b'0' + d else b'A' + (d - 10)

-- `fmt.Sprintf("%02X", b)` for a byte.
unfoldable pub hex_byte : ℕ → Text
unfolding hex_digit
hex_byte b = hex_digit (b / 16) ∷ hex_digit (b % 16) ∷ []

unfoldable pub exception_code_string : ℕ → Text
exception_code_string e =
    if e == ex_illegal_function
    then codes "illegal function"
    else if e == ex_illegal_data_address
    then codes "illegal data address"
    else if e == ex_illegal_data_value
    then codes "illegal data value"
    else if e == ex_server_device_failure
    then codes "server device failure"
    else if e == ex_acknowledge
    then codes "acknowledge"
    else if e == ex_server_device_busy
    then codes "server device busy"
    else if e == ex_memory_parity_error
    then codes "memory parity error"
    else if e == ex_gateway_path_unavailable
    then codes "gateway path unavailable"
    else if e == ex_gateway_target_device_failed_to_respond
    then codes "gateway target device failed to respond"
    else codes "unknown exception 0x" ++ hex_byte e
