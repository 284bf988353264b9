-- ===== src/Dscache.antt =====
-- dscache/: the cache that finds a dataset's newest version by its name. `Dscache/Cache` is the data
-- and the lookup, `Dscache/Update` what the cache does on the events of the logbook.
pub mod Cache
pub mod Update
pub mod Entries
pub mod Init
mod Tests
