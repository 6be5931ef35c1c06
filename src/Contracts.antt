-- ===== src/Contracts.antt =====
-- schemas/: the records that the components exchange, with their validators.
pub mod Common
pub mod Envelope
pub mod Config
pub mod Evidence
pub mod Anomaly
pub mod Decision
