-- ===== src/Transform.antt =====
-- transform: the runs of transform scripts, as the events that they publish describe them.
pub mod Run
