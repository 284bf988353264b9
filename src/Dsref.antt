-- ===== src/Dsref.antt =====
-- dsref: references to datasets, their syntax, and the names that are made for datasets.
pub mod Ref
pub mod Name
mod Tests
pub mod Scan
pub mod Parse
pub mod Generate
pub mod Resolve
pub mod Arrivals
mod Resolving
pub mod Rev
mod Revs
