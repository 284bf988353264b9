-- ===== src/Oplog.antt =====
-- logbook/oplog/log.go: operations, logs that form trees, and the journal that keeps them.
pub mod Op
pub mod Log
pub mod Tree
pub mod Merge
pub mod Journal
pub mod Sparse
mod Tests
