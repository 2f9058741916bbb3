-- ===== src/Packet/Codec.antt =====
-- A whole packet, header and typed body: `OspfPacket` (src/packet/mod.rs, lines 193-282).
pub mod RoundTrip
use ospfd.Common.{ℕ, ◌/◌, ◌%◌, List, ◌++◌, length, drop, set, Outcome, ok, ◌>>=◌}
use ospfd.Packet.Seal.{set_ospf_checksum}
use ospfd.Packet.Header
use ospfd.Packet.Header.{OspfHeader, OspfPacketType, ospf_header_len, parse_header, encode_header}
use ospfd.Packet.Hello.{HelloPacket, parse_hello, encode_hello}
use ospfd.Packet.Exchange.{
  DbDescPacket, LsRequestPacket, LsUpdatePacket, LsAckPacket, parse_dd, encode_dd, parse_lsr,
  encode_lsr, parse_lsu, encode_lsu, parse_ack, encode_ack,
}

pub data OspfPacket : Type 0 where
  hello : OspfHeader → HelloPacket → OspfPacket
  database_description : OspfHeader → DbDescPacket → OspfPacket
  link_state_request : OspfHeader → LsRequestPacket → OspfPacket
  link_state_update : OspfHeader → LsUpdatePacket → OspfPacket
  link_state_ack : OspfHeader → LsAckPacket → OspfPacket

-- `match header.packet_type`, on the bytes behind the header.
unfoldable pub parse_packet_body : OspfPacketType → OspfHeader → List ℕ → Outcome OspfPacket
parse_packet_body OspfPacketType.hello h body = do p ← parse_hello body; ok (hello h p)
parse_packet_body OspfPacketType.database_description h body = do
  p ← parse_dd body
  ok (database_description h p)
parse_packet_body OspfPacketType.link_state_request h body = do
  p ← parse_lsr body
  ok (link_state_request h p)
parse_packet_body OspfPacketType.link_state_update h body = do
  p ← parse_lsu body
  ok (link_state_update h p)
parse_packet_body OspfPacketType.link_state_ack h body = do
  p ← parse_ack body
  ok (link_state_ack h p)

unfoldable pub parse_packet : List ℕ → Outcome OspfPacket
parse_packet data_ = do
  h ← parse_header data_
  parse_packet_body h.packet_type h (drop ospf_header_len data_)

unfoldable pub header_of : OspfPacket → OspfHeader
header_of (hello h _) = h
header_of (database_description h _) = h
header_of (link_state_request h _) = h
header_of (link_state_update h _) = h
header_of (link_state_ack h _) = h

unfoldable pub encode_packet_body : OspfPacket → Outcome (List ℕ)
encode_packet_body (hello _ p) = ok (encode_hello p)
encode_packet_body (database_description _ p) = ok (encode_dd p)
encode_packet_body (link_state_request _ p) = ok (encode_lsr p)
encode_packet_body (link_state_update _ p) = encode_lsu p
encode_packet_body (link_state_ack _ p) = ok (encode_ack p)

-- `buf.len() as u16` into bytes 2 and 3: the length wraps at 65536.
unfoldable pub write_length : List ℕ → List ℕ
write_length buf =
    let pkt_len = length buf % 65536 in set (set buf 2 (pkt_len / 256 % 256)) 3 (pkt_len % 256)

unfoldable pub encode_packet : OspfPacket → Outcome (List ℕ)
encode_packet p = do
  body ← encode_packet_body p
  ok (
      set_ospf_checksum
        (write_length (encode_header (record (header_of p) { checksum = 0 }) ++ body)))
