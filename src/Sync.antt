-- ===== src/Sync.antt =====
-- logbook/logsync/logsync.go: logs of datasets that one logbook pushes to another. `Sync/Remote` is the
-- side that is asked, `Sync/Push` the side that asks.
pub mod Remote
pub mod Push
pub mod Checks
pub mod Denied
pub mod Serve
mod Tests
