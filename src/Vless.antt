-- ===== src/Vless.antt =====
-- The VLESS protocol: protocol/vless/src/common.rs.
pub mod Address
pub mod Header
pub mod Prefix
pub mod Response
pub mod Vision
pub mod Xudp
