-- ===== src/TextLayer.antt =====
-- engine/textlayer: the normalized text of an item, with a map back to the redacted original.
pub mod Tests
pub mod Normalize
pub mod Translate
pub mod Layer
