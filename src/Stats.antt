-- ===== src/Stats.antt =====
-- stats/cache.go: the files of the local cache of statistics, and how it is kept small.
pub mod Cache
pub mod Bound
mod Tests
