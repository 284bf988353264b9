-- ===== src/Access.antt =====
-- remote/access/access.go: who may do what to which resource of a remote.
-- `Access/Defs` has the types and the functions, the other children have the proofs.
pub mod Defs
pub mod Pattern
pub mod Policy
mod Tests
unfoldable pub use Defs.*
