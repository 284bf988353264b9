-- ===== src/Event.antt =====
-- event/event.go and event/transform.go: the bus that carries events between the parts of Qri.
pub mod Bus
pub mod Order
mod Tests
