-- ===== src/Service.antt =====
-- crates/zonkey-service/src/lib.rs: the observe-only pipeline.
pub mod Boundary
pub mod Queue
pub mod Run
pub mod Plan
pub mod Processor
pub mod Handoff
