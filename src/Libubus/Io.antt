-- ===== src/Libubus/Io.antt =====
-- ubus/libubus-io.c: messages over the socket of a client.
pub mod Receiving
pub mod Sending
pub mod Tests
