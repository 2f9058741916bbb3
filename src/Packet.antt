-- ===== src/Packet.antt =====
-- The packet codec (src/packet/): OSPF packets, their bodies, LSAs and checksums as bytes.
pub mod Addresses
pub mod Checksum
pub mod Seal
pub mod Auth
pub mod Each
pub mod Header
pub mod Lsa
pub mod Hello
pub mod Exchange
pub mod Codec
mod Examples
