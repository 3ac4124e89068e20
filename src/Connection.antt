-- ===== src/Connection.antt =====
-- src/server.rs: a connection, the handling of its requests and the frames that it accepts.
pub mod State
pub mod Handle
pub mod Receive
pub mod Writer
pub mod Kept
