-- ===== src/Journal.antt =====
-- engine/journal: the append-only event log and the case state folded out of it.
pub mod Events
pub mod Store
pub mod Files
pub mod Projection
mod Tests
