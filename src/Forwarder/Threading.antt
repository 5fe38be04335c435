-- ===== src/Forwarder/Threading.antt =====
-- crates/lb-forwarder/src/threading.rs: the threads of the forwarder.
pub mod Worker
pub mod Hands
pub mod System
pub mod Measure
pub mod Steps
pub mod Ownership
pub mod Frames
pub mod Fit
pub mod Affinity
mod Tests
