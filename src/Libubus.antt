-- ===== src/Libubus.antt =====
-- The client library: ubus/libubus*.c.
pub mod Request
pub mod Object
pub mod Queue
pub mod Registry
pub mod Connect
pub mod Tests
pub mod Io
