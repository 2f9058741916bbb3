-- ===== src/Packet/Lsa.antt =====
-- Link State Advertisements (src/packet/lsa.rs).
pub mod Header
pub mod Body
pub mod Codec
