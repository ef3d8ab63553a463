-- ===== src/Modbus.antt =====
-- internal/modbus: the wire format, the client and the driver.
pub mod Mbap
pub mod Pdu
pub mod Exception
pub mod Transport
pub mod Client
pub mod Address
pub mod Convert
pub mod Driver
