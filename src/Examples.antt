-- ===== src/Examples.antt =====
-- Concrete runs: the data that the theorems are applied to.
mod Rocks
mod Wire
mod Store
mod Frames
mod Statements
mod Seeds
mod Selects
mod Requests
