-- ===== src/Repo.antt =====
-- repo/ref and repo/mem_refstore.go: the older references to datasets and the store of them in memory.
pub mod Ref
pub mod Refstore
pub mod Put
pub mod Parse
pub mod Absolute
mod Tests
