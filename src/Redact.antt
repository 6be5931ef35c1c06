-- ===== src/Redact.antt =====
-- engine/redact: the boundary at which identity leaves the working copy.
mod Tests
pub mod Placeholders
pub mod Registry
pub mod Witness
