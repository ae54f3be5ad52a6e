-- ===== src/Locator.antt =====
-- Package internal/all: the authenticated log locator.
pub mod Types
pub mod Key
pub mod Encode
pub mod Page
pub mod Reader
pub mod Codec
pub mod Bounds
pub mod Proof
pub mod Entries
pub mod Range
pub mod Tree
mod Tests
