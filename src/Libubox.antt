-- ===== src/Libubox.antt =====
-- What ubusd uses of libubox and of the C library: texts and ordered trees.
pub mod Text
pub mod Tree
