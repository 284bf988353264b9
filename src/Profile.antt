-- ===== src/Profile.antt =====
-- profile/: who the users of a node are.
pub mod Store
mod Tests
