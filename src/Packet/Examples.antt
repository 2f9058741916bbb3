-- ===== src/Packet/Examples.antt =====
-- Checksums and LSAs at concrete inputs.
mod Packets
mod Auth
use ospfd.Common.{
  ℕ, ◌+◌, ◌≡◌, refl, arith, true, List, [], ◌∷◌, ◌++◌, take, drop, length, map, IsU8, All, ok,
  ◌>>=◌, Returns,
}
use Prim.Native.Nat.{Ordering}
use ospfd.Packet.Checksum.Fletcher.{fletcher16, fletcher16_verify}
use ospfd.Packet.Checksum.Fletcher.Correct.{sealed, fletcher16_verify-fletcher16}
use ospfd.Packet.Addresses.{encode_addresses}
use ospfd.Packet.Seal.{set_ospf_checksum, verify_ospf_checksum}
use ospfd.Packet.Seal.Verified.{verify-set_ospf_checksum}
use ospfd.Packet.Lsa.Header
use ospfd.Packet.Lsa.Header.{LsaHeader, IsHeader, router, network, lsa_header_len}
use ospfd.Packet.Lsa.Header.RoundTrip.{header_parse-encode, header_parse-Returns}
use ospfd.Packet.Lsa.Header.Recency.{is_more_recent_than, flip, recency-flip, recency_trans}
use ospfd.Packet.Lsa.Body.{
  RouterLsa, RouterLink, stub_network, LsaBody, encode_router, encode_links, encode_link,
}
use ospfd.Packet.Lsa.Body.RoundTrip.{IsRouter}
use ospfd.Packet.Lsa.Codec
use ospfd.Packet.Lsa.Codec.{Lsa, encode_body}
use ospfd.Packet.Lsa.Codec.RoundTrip.{finished, lsa_parse-encode}
use ospfd.Packet.Lsa.Codec.Checked.{lsa_checksum_verifies}
use ospfd.Packet.Header.{OspfPacketType, OspfHeader, parse_header, encode_header}
use ospfd.Packet.Header.RoundTrip.{IsOspfHeader, parse_header-encode_header}
use ospfd.Packet.Hello.{HelloPacket, parse_hello, encode_hello}
use ospfd.Packet.Hello.RoundTrip.{IsHello, parse_hello-encode_hello, parse_hello-Returns}
use ospfd.Packet.Exchange.{
  DbDescPacket, parse_dd, encode_dd, LsRequestPacket, parse_lsr, encode_lsr, LsAckPacket, parse_ack,
  encode_ack, LsUpdatePacket, parse_lsu, encode_lsu,
}
use ospfd.Packet.Exchange.RoundTrip.{
  IsLsa, parse_dd-encode_dd, parse_lsr-encode_lsr, parse_ack-encode_ack, parse_lsu-encode_lsu,
}
use ospfd.Packet.Codec.{OspfPacket, header_of, parse_packet, encode_packet, encode_packet_body}
use ospfd.Packet.Codec.RoundTrip.{finished_packet}

fletcher_example :
    let (x, y) = fletcher16 (sealed (1 ∷ 200 ∷ []) 0 0 (255 ∷ [])) 2 in
    (fletcher16_verify (sealed (1 ∷ 200 ∷ []) x y (255 ∷ [])) ≡ true) × IsU8 x × IsU8 y
fletcher_example =
    fletcher16_verify-fletcher16 (1 ∷ 200 ∷ []) (255 ∷ []) 0 0 (omega arith, (omega arith, tt))
      (omega arith, tt) (omega arith)

abbrev raw_packet : List ℕ
raw_packet =
    2 ∷ 1 ∷ 0 ∷ 25 ∷ 1 ∷ 1 ∷ 1 ∷ 1 ∷ 0 ∷ 0 ∷ 0 ∷ 0 ∷ 7 ∷ 7 ∷ 0 ∷ 0 ∷ 9 ∷ 9 ∷ 9 ∷ 9 ∷ 9 ∷ 9 ∷ 9 ∷ 9
    ∷ 255 ∷ []

raw_packet-IsU8 : All IsU8 raw_packet
raw_packet-IsU8 = ground arith

seal_example :
    (verify_ospf_checksum (set_ospf_checksum raw_packet) ≡ true)
    × (take 12 (set_ospf_checksum raw_packet) ≡ take 12 raw_packet)
    × (drop 14 (set_ospf_checksum raw_packet) ≡ drop 14 raw_packet)
seal_example = verify-set_ospf_checksum raw_packet raw_packet-IsU8 (omega arith) (omega arith)

abbrev lsa_header : LsaHeader
lsa_header = record {
  ls_age = 3;
  options = 2;
  ls_type = router;
  link_state_id = 0x01010101;
  advertising_router = 0x01010101;
  ls_sequence_number = 0x80000001;
  ls_checksum = 0;
  length = 36;
}

lsa_header-IsHeader : IsHeader lsa_header
lsa_header-IsHeader = record {
  ls_age = omega arith;
  options = omega arith;
  link_state_id = omega arith;
  advertising_router = omega arith;
  ls_sequence_number = omega arith;
  ls_checksum = omega arith;
  length = omega arith;
}

abbrev newer_header : LsaHeader
newer_header = record lsa_header { ls_sequence_number = 0x80000002 }

abbrev newest_header : LsaHeader
newest_header = record lsa_header { ls_sequence_number = 1 }

newest_newer : is_more_recent_than newest_header newer_header ≡ Ordering.gt
unfolding is_more_recent_than
newest_newer = refl

newer_older : is_more_recent_than newer_header lsa_header ≡ Ordering.gt
unfolding is_more_recent_than
newer_older = refl

abbrev stub_link : RouterLink
stub_link = record {
  link_id = 0x0A000000;
  link_data = 0xFFFFFF00;
  link_type = stub_network;
  num_tos = 0;
  metric = 10;
}

abbrev router_body : RouterLsa
router_body = record { flags = 1; links = stub_link ∷ [] }

router_body-IsRouter : IsRouter router_body
router_body-IsRouter = record {
  flags = omega arith;
  links = (
    record {
      link_id = omega arith;
      link_data = omega arith;
      metric = omega arith;
      only_tos_0 = refl;
    },
    tt,
  );
  count = omega arith;
}

abbrev router_lsa : Lsa
router_lsa = record { header = lsa_header; body = LsaBody.router router_body }

router_lsa_size : lsa_header_len + length (encode_body router_lsa.body) ≡ 36
unfolding encode_body encode_router encode_links encode_link
router_lsa_size = refl

lsa_parse-encode_example :
    (Codec.encode router_lsa >>= λ bytes. Codec.parse (bytes ++ (7 ∷ [])))
    ≡ ok (finished router_lsa)
lsa_parse-encode_example =
    lsa_parse-encode router_lsa (7 ∷ []) lsa_header-IsHeader router_body-IsRouter
      (omega (arith, router_lsa_size))
