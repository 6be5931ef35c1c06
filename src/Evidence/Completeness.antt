-- ===== src/Evidence/Completeness.antt =====
-- engine/evidence/completeness.py: an item against the requirement list of its procedure.
mod Tests
pub mod Dates
pub mod Messages
pub mod Checks
pub mod CrossField
pub mod Discretion
pub mod Evaluate
