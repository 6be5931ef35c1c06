-- ===== src/Extract.antt =====
-- engine/extract: proposals, and the records that they become once they are verified.
mod Tests
pub mod Records
pub mod Verify
pub mod Mapper
pub mod Orchestrate
