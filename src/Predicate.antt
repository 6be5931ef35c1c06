-- ===== src/Predicate.antt =====
-- engine/predicate.py: the comparison primitive, the predicate AST and its parser.
pub mod Compare
pub mod Ast
pub mod Parse
pub mod Totality
pub mod Semantics
pub mod Locality
pub mod RoundTrip
mod Tests
