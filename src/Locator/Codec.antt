-- ===== src/Locator/Codec.antt =====
-- The stored form of a page: internal/all/page_codec.go.
pub mod Marshal
pub mod Unmarshal
pub mod Items
pub mod RoundTrip
pub mod Stored
