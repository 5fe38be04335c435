-- ===== src/Bgp.antt =====
-- crates/lb-bgp: the announcement of addresses to routers.
pub mod Messages
pub mod Framing
pub mod Session
pub mod Speaker
