-- ===== src/Packet/Examples/Packets.antt =====
-- Packets and their bodies at concrete inputs.
use ospfd.Common.{arith, [], ◌∷◌, length}
use ospfd.Packet.Lsa.Header.{IsHeader, network}
use ospfd.Packet.Header.{OspfPacketType, OspfHeader}
use ospfd.Packet.Hello.{HelloPacket}
use ospfd.Packet.Exchange.{DbDescPacket, LsRequestPacket, LsAckPacket, LsUpdatePacket}
use ospfd.Packet.Exchange.RoundTrip.{IsLsa}
use ospfd.Packet.Codec.{OspfPacket}
use ospfd.Packet.Examples.{
  lsa_header, lsa_header-IsHeader, newer_header, router_lsa, router_body-IsRouter, router_lsa_size,
}

abbrev hello_header : OspfHeader
hello_header = record {
  version = 2;
  packet_type = OspfPacketType.hello;
  packet_length = 0;
  router_id = 0x01010101;
  area_id = 0;
  checksum = 0;
  au_type = 0;
  authentication = 0 ∷ 0 ∷ 0 ∷ 0 ∷ 0 ∷ 0 ∷ 0 ∷ 0 ∷ [];
}

abbrev hello_body : HelloPacket
hello_body = record {
  network_mask = 0xFFFFFF00;
  hello_interval = 10;
  options = 2;
  router_priority = 1;
  router_dead_interval = 40;
  designated_router = 0x0A000001;
  backup_designated_router = 0;
  neighbors = 0x02020202 ∷ 0x03030303 ∷ [];
}

abbrev description : DbDescPacket
description = record {
  interface_mtu = 1500;
  options = 2;
  flags = 7;
  dd_sequence_number = 99;
  lsa_headers = lsa_header ∷ newer_header ∷ [];
}

newer_header-IsHeader : IsHeader newer_header
newer_header-IsHeader = record {
  ls_age = omega arith;
  options = omega arith;
  link_state_id = omega arith;
  advertising_router = omega arith;
  ls_sequence_number = omega arith;
  ls_checksum = omega arith;
  length = omega arith;
}

abbrev request_packet : LsRequestPacket
request_packet = record {
  requests = record { ls_type = network; link_state_id = 7; advertising_router = 8 } ∷ [];
}

abbrev ack_packet : LsAckPacket
ack_packet = record { lsa_headers = lsa_header ∷ newer_header ∷ [] }

abbrev update_packet : LsUpdatePacket
update_packet = record { lsas = router_lsa ∷ [] }

router_lsa-IsLsa : IsLsa router_lsa
router_lsa-IsLsa = record {
  header = lsa_header-IsHeader;
  body = router_body-IsRouter;
  fits = omega (arith, router_lsa_size);
}

abbrev hello_packet : OspfPacket
hello_packet = OspfPacket.hello hello_header hello_body
