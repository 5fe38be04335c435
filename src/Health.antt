-- ===== src/Health.antt =====
-- crates/lb-health: what probes say about the health of a backend.
pub mod State
pub mod Runs
mod Tests
