-- ===== src/Forwarder/Rewriter.antt =====
-- crates/lb-forwarder/src/rewriter.rs: the pipeline that a packet goes through on its thread.
pub mod Metrics
pub mod Steps
pub mod Batch
pub mod Laws
pub mod Choice
pub mod Passes
pub mod Conserved
pub mod Sample
mod Tests
