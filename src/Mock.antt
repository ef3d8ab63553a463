-- ===== src/Mock.antt =====
-- internal/mock: the in-memory Modbus TCP server.
pub mod Server
pub mod Connection
pub mod Listener
pub mod Link
pub mod Process
pub mod Plant
