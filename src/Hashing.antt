-- ===== src/Hashing.antt =====
-- crates/lb-hashing: the Maglev lookup table.
pub mod Permutation
pub mod Prime
pub mod Table
pub mod Slots
pub mod Seek
pub mod Fill
pub mod Build
mod Tests
