-- ===== src/Query.antt =====
-- src/query.rs: the execution of statements.
pub mod Syntax
pub mod Errors
pub mod Binds
pub mod Select
pub mod Filters
pub mod Address
pub mod Project
pub mod Insert
pub mod Written
pub mod Update
pub mod Scan
pub mod PointRead
pub mod Upsert
pub mod Pages
pub mod Selection
pub mod SelectRun
pub mod Paging
pub mod PageRows
pub mod ScanRows
pub mod SelectPage
pub mod Steps
pub mod Mirror
pub mod Ddl
pub mod AstCache
pub mod Execute
pub mod Prepare
pub mod BindSpecs
pub mod Guarded
