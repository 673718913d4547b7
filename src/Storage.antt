-- ===== src/Storage.antt =====
-- internal/storage/mongo.go: the persistence layer. The MongoDB driver is not modelled: what it
-- answers is a parameter of each operation.
pub mod Insert
pub mod Writes
pub mod Documents
pub mod Query
pub mod Filter
pub mod Aggregate
pub mod Buckets
pub mod Groups
pub mod ErrorRate
pub mod Setup
pub mod Watch
