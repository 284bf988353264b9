-- ===== src/Friendly.antt =====
-- base/friendly/friendly.go: differences of two versions told in words. `Friendly/Changes` collects what
-- changed in each component, `Friendly/Message` makes the texts.
pub mod Changes
pub mod Message
mod Tests
