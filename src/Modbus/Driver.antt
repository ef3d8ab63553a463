-- ===== src/Modbus/Driver.antt =====
-- internal/modbus/driver.go: the Modbus driver over the client.
pub mod Encoding
pub mod Session
pub mod Plans
pub mod RoundTrip
pub mod Raw
