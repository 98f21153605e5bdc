-- ===== src/Relational.antt =====
-- The relational layer of the client (src/sdk/client/relational).
pub mod Column
pub mod Schema
pub mod Keys
pub mod RowCheck
pub mod Filter
pub mod Table
pub mod Database
pub mod Transaction
pub mod Aggregation
pub mod Query
pub mod Join
pub mod Constraints
pub mod Mirror
pub mod SecondaryNative
pub mod Sql
pub mod ErrorNames
pub mod Selection
pub mod Executor
pub mod Pushdown
pub mod CatalogRecord
pub mod CatalogStore
