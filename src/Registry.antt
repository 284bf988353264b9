-- ===== src/Registry.antt =====
-- registry: the names under which profiles are registered.
pub mod Profiles
pub mod Names
mod Tests
