-- ===== src/Detect.antt =====
-- crates/zonkey-detect: lexical evidence about a finished token.
pub mod Evidence
pub mod Patterns
pub mod Dictionary
pub mod Validation
pub mod Classifier
pub mod Safety
