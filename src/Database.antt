-- ===== src/Database.antt =====
-- sialite.go: the database of blocks in memory.
pub mod Types
pub mod Store
pub mod Adding
pub mod Outputs
pub mod Growth
pub mod Loops
pub mod Claims
pub mod Contracts
pub mod Known
pub mod Transactions
pub mod Blocks
pub mod Extensions
pub mod Process
pub mod Fetch
mod Tests
