-- ===== src/Types.antt =====
-- The shared types: crates/lb-types.
pub mod Net
pub mod Backend
pub mod Packet
pub mod Ttls
pub mod Mtu
pub mod BgpConfig
