-- ===== src/Value.antt =====
-- src/cql_value.rs: CQL values, their wire form both ways, and their literals.
pub mod Types
pub mod Utf8
pub mod Decode
pub mod Tested
pub mod Typing
pub mod Wire
pub mod Reads
pub mod RoundTrip
pub mod Sound
pub mod Literal
pub mod Quoting
