-- ===== src/Rows.antt =====
-- src/storage.rs: the stored form of a row's regular columns.
pub mod Columns
pub mod RoundTrip
