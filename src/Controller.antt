-- ===== src/Controller.antt =====
-- crates/lb-controller/src/orchestrator.rs: the control plane.
pub mod VipSet
pub mod Defs
pub mod Announce
mod Tests
