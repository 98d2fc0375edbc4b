-- ===== src/Wrapper.antt =====
-- java_ubus_example/jni/ubus_wrapper.c: what the native methods of the Java classes call.
pub mod Outcome
pub mod Calls
pub mod Types
pub mod Incoming
pub mod Objects
mod Tests
