-- ===== src/Hysteria.antt =====
-- protocol/hysteria/src: the Hysteria 2 protocol.
pub mod Codec
pub mod Messages
pub mod Salamander
pub mod Udp
