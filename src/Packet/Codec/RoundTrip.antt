-- ===== src/Packet/Codec/RoundTrip.antt =====
-- A whole packet is read back from what `OspfPacket::encode` writes.
use ospfd.Common.{ℕ, ◌+◌, ◌≡◌, List, ◌++◌, map, All, length, IsU32}
use ospfd.Packet.Checksum.Ip.{ip_checksum}
use ospfd.Packet.Seal.{without_auth}
use ospfd.Packet.Header.{OspfHeader, OspfPacketType, ospf_header_len, encode_header}
use ospfd.Packet.Hello.RoundTrip.{IsHello}
use ospfd.Packet.Lsa.Header.{IsHeader}
use ospfd.Packet.Lsa.Codec.RoundTrip.{finished}
use ospfd.Packet.Exchange.RoundTrip.{IsDd, IsRequest, IsLsa}
use ospfd.Packet.Codec.{
  OspfPacket, hello, database_description, link_state_request, link_state_update, link_state_ack,
}

-- The header with the length filled in, and its checksum over a body.
abbrev with_length : OspfHeader → List ℕ → OspfHeader
with_length h body = record h { checksum = 0; packet_length = ospf_header_len + length body }

abbrev packet_checksum : OspfHeader → List ℕ → ℕ
packet_checksum h body = ip_checksum (without_auth (encode_header (with_length h body) ++ body))

abbrev pub sealed_header : OspfHeader → List ℕ → OspfHeader
sealed_header h body = record (with_length h body) { checksum = packet_checksum h body }

-- The body is of the header's packet type, and its fields fit their types.
abbrev pub IsPacket : OspfPacket → Type 0
IsPacket (hello h p) = (h.packet_type ≡ OspfPacketType.hello) × IsHello p
IsPacket (database_description h p) = (h.packet_type ≡ OspfPacketType.database_description) × IsDd p
IsPacket (link_state_request h p) =
    (h.packet_type ≡ OspfPacketType.link_state_request) × All IsRequest p.requests
IsPacket (link_state_update h p) =
    (h.packet_type ≡ OspfPacketType.link_state_update) × All IsLsa p.lsas × IsU32 (length p.lsas)
IsPacket (link_state_ack h p) =
    (h.packet_type ≡ OspfPacketType.link_state_ack) × All IsHeader p.lsa_headers

-- The packet that is on the wire: its length and checksum filled in, and those of its LSAs.
abbrev pub finished_packet : OspfPacket → List ℕ → OspfPacket
finished_packet (hello h p) body = hello (sealed_header h body) p
finished_packet (database_description h p) body = database_description (sealed_header h body) p
finished_packet (link_state_request h p) body = link_state_request (sealed_header h body) p
finished_packet (link_state_update h p) body =
    link_state_update (sealed_header h body) (record { lsas = map finished p.lsas })
finished_packet (link_state_ack h p) body = link_state_ack (sealed_header h body) p
