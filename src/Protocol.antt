-- ===== src/Protocol.antt =====
-- src/protocol.rs: the frames that answer a request.
pub mod Frames
pub mod Header
