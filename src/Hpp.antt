-- ===== src/Hpp.antt =====
-- Package internal/hpp.
pub mod Types
pub mod Plan
pub mod Rebuild
pub mod Verify
pub mod Grouping
mod Tests
