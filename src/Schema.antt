-- ===== src/Schema.antt =====
-- src/schema.rs: column types, table and keyspace definitions, identifiers, and the table
-- definition that a CREATE TABLE statement asks for.
pub mod Types
pub mod TypeNames
pub mod Idents
pub mod Build
