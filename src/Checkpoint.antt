-- ===== src/Checkpoint.antt =====
-- internal/checkpoint: coordinated roots become finalized, externally anchored checkpoints.
pub mod Types
pub mod Commitment
pub mod Validate
pub mod MockAnchor
pub mod Action
pub mod Finalize
mod Tests
