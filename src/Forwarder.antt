-- ===== src/Forwarder.antt =====
-- crates/lb-forwarder: the data plane.
pub mod Ring
pub mod RobinHood
pub mod ConnTable
pub mod PacketBuf
pub mod Checksum
pub mod Gre
pub mod FragmentTable
pub mod MssClamp
pub mod Icmp
pub mod VipMatcher
pub mod Rewriter
pub mod ArrayQueue
pub mod PacketPool
pub mod Threading
