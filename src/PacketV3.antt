-- ===== src/PacketV3.antt =====
-- The packets of OSPFv3 (src/packet_v3/). `PacketV3Error` has the variants of `PacketError`, and an
-- answer is an `Outcome` of Common too.
mod Examples
pub mod Bits24
pub mod Header
pub mod Hello
pub mod Lsa
pub mod Exchange
pub mod Prefix
pub mod Bodies
pub mod External
pub mod Total
pub mod TotalLsa
