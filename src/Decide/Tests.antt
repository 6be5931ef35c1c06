-- ===== src/Decide/Tests.antt =====
-- Runs of `decide` with config/decision/decision_table_v1.yaml, and its theorems at those inputs.
pub mod Shipped
mod Witnesses
