-- ===== src/Hysteria/Udp.antt =====
-- protocol/hysteria/src/udp.rs: UDP over QUIC datagrams.
pub mod Wire
pub mod Send
pub mod Receive
pub mod Server
pub mod Delivery
pub mod Forward
pub mod Reply
