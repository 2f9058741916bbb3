-- ===== src/PacketV3/Examples.antt =====
-- Packets and LSAs of version 3 at concrete inputs.
use ospfd.PacketV3.Total.{bodies-Returns}
use ospfd.PacketV3.TotalLsa.{lsa_bodies-Returns}
use ospfd.PacketV3.Hello.{parse_hello_v3}
use ospfd.Common.{
  Returns, ℕ, ◌+◌, ◌*◌, ◌≡◌, refl, arith, true, false, none, some, List, [], ◌∷◌, ◌++◌, ok, fault,
  panic, ◌>>=◌,
}
use ospfd.PacketV3.Lsa.{LsaV3Header, LsaV3Type, encode_lsa_v3_header}
use ospfd.PacketV3.Exchange.{
  parse_dd_v3, parse_lsr_v3, parse_ack_v3, LsaV3Raw, LsUpdateV3Packet, parse_lsu_v3,
}
use ospfd.PacketV3.Exchange.RoundTrip.{IsRaw}
use ospfd.PacketV3.Prefix.{
  Ospfv3Prefix, prefix_word_count, parse_prefix, encode_prefix, padded, zeros,
}
use ospfd.PacketV3.Prefix.RoundTrip.{IsPrefix, long_prefix_panics}
use ospfd.PacketV3.Bodies.{
  parse_router_v3, parse_network_v3, parse_intra_v3, parse_inter_v3, LinkLsaV3, parse_link_lsa_v3,
}
use ospfd.PacketV3.External.{AsExternalLsaV3, parse_external_v3, encode_external_v3}
use ospfd.PacketV3.External.RoundTrip.{parse_external_v3-encode_external_v3}

-- 2001:db8::/32
abbrev doc : Ospfv3Prefix
doc = record {
  prefix_length = 32;
  prefix_options = 0;
  prefix_or_metric = 0;
  address = 0x20 ∷ 0x01 ∷ 0x0D ∷ 0xB8 ∷ 0 ∷ 0 ∷ 0 ∷ 0 ∷ 0 ∷ 0 ∷ 0 ∷ 0 ∷ 0 ∷ 0 ∷ 0 ∷ 0 ∷ [];
}

doc-IsPrefix : IsPrefix doc
unfolding padded zeros
doc-IsPrefix = record {
  prefix_length = omega arith;
  prefix_or_metric = omega arith;
  octets = refl;
  blank = refl;
}

abbrev twenty : List ℕ
twenty =
    1 ∷ 2 ∷ 3 ∷ 4 ∷ 5 ∷ 6 ∷ 7 ∷ 8 ∷ 9 ∷ 10 ∷ 11 ∷ 12 ∷ 13 ∷ 14 ∷ 15 ∷ 16 ∷ 17 ∷ 18 ∷ 19 ∷ 20 ∷ []

long_prefix_panics_example :
    (p : Ospfv3Prefix) × (parse_prefix (129 ∷ 0 ∷ 0 ∷ 0 ∷ twenty)
      ≡ ok (p, 4 + prefix_word_count 129 * 4))
    × (encode_prefix p ≡ fault panic)
long_prefix_panics_example = long_prefix_panics 129 0 0 0 twenty (omega arith) (omega arith)

abbrev header : LsaV3Header
header = record {
  ls_age = 1;
  ls_type = LsaV3Type.network;
  link_state_id = 5;
  advertising_router = 7;
  ls_sequence_number = 0x80000001;
  ls_checksum = 0x1234;
  length = 24;
}

abbrev raw : LsaV3Raw
raw = record { header = header; raw = encode_lsa_v3_header header ++ (0 ∷ 0 ∷ 0 ∷ 0x13 ∷ []) }

raw-IsRaw : IsRaw raw
unfolding encode_lsa_v3_header
raw-IsRaw = record {
  body = 0 ∷ 0 ∷ 0 ∷ 0x13 ∷ [];
  header = record {
    ls_age = omega arith;
    link_state_id = omega arith;
    advertising_router = omega arith;
    ls_sequence_number = omega arith;
    ls_checksum = omega arith;
    length = omega arith;
  };
  bytes = refl;
  whole = refl;
}

abbrev update : LsUpdateV3Packet
update = record { lsas = raw ∷ [] }

abbrev link_lsa : LinkLsaV3
link_lsa = record {
  router_priority = 1;
  options = 0x13;
  link_local_address = 0xFE ∷ 0x80 ∷ 0 ∷ 0 ∷ 0 ∷ 0 ∷ 0 ∷ 0 ∷ 0 ∷ 0 ∷ 0 ∷ 0 ∷ 0 ∷ 0 ∷ 0 ∷ 1 ∷ [];
  prefixes = doc ∷ [];
}

abbrev external : AsExternalLsaV3
external = record {
  metric_type_2 = true;
  forwarding_present = false;
  tag_present = true;
  metric = 20;
  prefix = doc;
  referenced_ls_type = 0;
  forwarding_address = none;
  external_route_tag = some 99;
  referenced_link_state_id = none;
}

parse_external_v3_example : (encode_external_v3 external >>= parse_external_v3) ≡ ok external
parse_external_v3_example = parse_external_v3-encode_external_v3 external (record {
  metric = omega arith;
  prefix = doc-IsPrefix;
  referenced_ls_type = refl;
  forwarding_address = tt;
  external_route_tag = omega arith;
  referenced_link_state_id = tt;
})

abbrev noise : List ℕ
noise = 0 ∷ 0 ∷ 0 ∷ 1 ∷ 129 ∷ 2 ∷ 3 ∷ 4 ∷ twenty

bodies-Returns_example :
    Returns (parse_hello_v3 noise)
    × Returns (parse_dd_v3 noise)
    × Returns (parse_lsr_v3 noise)
    × Returns (parse_lsu_v3 noise)
    × Returns (parse_ack_v3 noise)
bodies-Returns_example = bodies-Returns noise

lsa_bodies-Returns_example :
    Returns (parse_router_v3 noise)
    × Returns (parse_network_v3 noise)
    × Returns (parse_link_lsa_v3 noise)
    × Returns (parse_intra_v3 noise)
    × Returns (parse_inter_v3 noise)
    × Returns (parse_external_v3 noise)
lsa_bodies-Returns_example = lsa_bodies-Returns noise
