-- ===== src/Packet/Checksum.antt =====
-- The checksums of OSPF (src/packet/checksum.rs): the Fletcher checksum of an LSA and the
-- internet checksum of a packet.
pub mod Fletcher
pub mod Ip
