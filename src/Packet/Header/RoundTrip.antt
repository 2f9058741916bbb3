-- ===== src/Packet/Header/RoundTrip.antt =====
-- The packet header's codec: what is written is read back, and reading never panics.
use ospfd.Common.{
  ℕ, ◌≡◌, refl, arith, some, List, ◌++◌, length, take, IsU16, IsU32, from_be16-be16, from_be32-be32,
  ok, take-length_append,
}
use ospfd.Packet.Header.{
  OspfPacketType, OspfHeader, hello, type_to_u8, type_from_u8, ospf_header_len, ospf_version,
  parse_header, encode_header,
}

pub record IsOspfHeader (h : OspfHeader) : Type 0 where
  pub version : h.version ≡ ospf_version
  pub packet_length : IsU16 h.packet_length
  pub router_id : IsU32 h.router_id
  pub area_id : IsU32 h.area_id
  pub checksum : IsU16 h.checksum
  pub au_type : IsU16 h.au_type
  pub authentication : length h.authentication ≡ 8

pub type_from_u8-type_to_u8 : (t : OspfPacketType) → type_from_u8 (type_to_u8 t) ≡ some t
type_from_u8-type_to_u8 hello = refl
type_from_u8-type_to_u8 _ = refl

pub length-encode_header :
    (h : OspfHeader) → length h.authentication ≡ 8 → length (encode_header h) ≡ ospf_header_len
unfolding encode_header
length-encode_header h e = omega arith

take_eight :
    (h : OspfHeader) (rest : List ℕ)
    → length h.authentication ≡ 8
    → take 8 (h.authentication ++ rest) ≡ h.authentication
take_eight h rest e = rw (← e) (take-length_append h.authentication rest)

-- A version 2 header whose fields fit their types is read back from its bytes, whatever follows.
pub parse_header-encode_header :
    (h : OspfHeader) (rest : List ℕ)
    → IsOspfHeader h
    → parse_header (encode_header h ++ rest) ≡ ok h
unfolding parse_header encode_header
parse_header-encode_header h rest v = ground (
  arith,
  type_from_u8-type_to_u8 h.packet_type,
  from_be16-be16 h.packet_length,
  from_be32-be32 h.router_id,
  from_be32-be32 h.area_id,
  from_be16-be16 h.checksum,
  from_be16-be16 h.au_type,
  take_eight h rest,
)
