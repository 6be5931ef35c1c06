-- ===== src/Decide.antt =====
-- engine/decide/interpreter.py: the tier decision table. Each rail of the module is a child.
pub mod Fields
pub mod Rows
pub mod Downgrades
pub mod Sample
pub mod Record
pub mod Outcome
pub mod Monotone
pub mod Valve
pub mod LogOnly
pub mod FirstMatch
pub mod Clearance
pub mod Unresolved
pub mod Admission
pub mod Validity
pub mod Drawing
pub mod PlainReasons
pub mod AuditReasons
pub mod Tests
