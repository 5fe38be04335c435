-- ===== src/Forwarder/ConnTable.antt =====
-- crates/lb-forwarder/src/conn_table.rs: the connection tracking table, open addressing with
-- Robin Hood hashing. An `Instant` is a number of nanoseconds, and `duration_since` is 0 for a
-- later instant. Every index is masked, so that it lies inside of `entries`; a read outside of it
-- would give a vacant entry here.
pub mod Defs
pub mod Shape
pub mod Insert
pub mod Loop
pub mod Find
pub mod Laws
pub mod States
mod Tests
