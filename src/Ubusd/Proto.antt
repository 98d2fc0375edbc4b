-- ===== src/Ubusd/Proto.antt =====
-- ubus/ubusd_proto.c: the protocol between ubusd and its clients.
pub mod Reply
pub mod Objects
pub mod Lookup
pub mod Call
pub mod Watch
pub mod Receive
pub mod Client
