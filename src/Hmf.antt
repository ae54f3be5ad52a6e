-- ===== src/Hmf.antt =====
-- Package internal/hmf.
pub mod Node
pub mod Commitment
pub mod Merkle
pub mod Segment
pub mod Levels
pub mod Region
pub mod Global
pub mod Shard
pub mod Agreement
pub mod Forest
mod Tests
