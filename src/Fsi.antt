-- ===== src/Fsi.antt =====
-- fsi: working directories that are linked to a dataset.
pub mod Status
pub mod Clean
mod Tests
