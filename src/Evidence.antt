-- ===== src/Evidence.antt =====
-- The evidence plane: routing rules, the derivation of the procedure and clear-cut criteria.
pub mod Completeness
pub mod Routing
pub mod Derive
pub mod ClearCut
mod Tests
