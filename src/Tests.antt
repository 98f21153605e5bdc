-- ===== src/Tests.antt =====
-- The sample data of the tests, and the theorems applied to it.
pub mod Sample
pub mod Arena
pub mod Rows
pub mod Filters
pub mod Queries
pub mod Mirrored
pub mod Sealed
pub mod Catalog
pub mod Pushed
pub mod Statements
pub mod Proxies
pub mod Stored
pub mod Ranged
pub mod Collected
pub mod Allocated
pub mod Restored
pub mod Updates
pub mod Ordered
pub mod Inserts
