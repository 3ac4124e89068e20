-- ===== src/Storage.antt =====
-- src/storage.rs: the engines behind their write pipelines, the routing of rows to engines, the row
-- cache and the catalogue of keyspaces and tables.
pub mod Engine
pub mod Pipeline
pub mod Commits
pub mod Routing
pub mod Rows
pub mod Scan
pub mod Callbacks
pub mod Ordered
pub mod Removal
pub mod Truncation
pub mod Catalogue
pub mod Seed
pub mod Reads
pub mod Making
pub mod Seeded
pub mod Stale
pub mod Overtaken
