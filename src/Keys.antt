-- ===== src/Keys.antt =====
-- src/storage.rs: the keys of the engines. A row's key is the prefix of its table and the parts of
-- its primary key, each with a length of two bytes.
pub mod Parts
pub mod RoundTrip
pub mod Total
pub mod Prefixes
pub mod Bounds
pub mod Tables
