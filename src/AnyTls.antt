-- ===== src/AnyTls.antt =====
-- protocol/anytls/src: the AnyTLS client.
pub mod Frame
pub mod Padding
pub mod Reader
pub mod Writer
