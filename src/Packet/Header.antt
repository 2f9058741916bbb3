-- ===== src/Packet/Header.antt =====
-- The 24-byte packet header (src/packet/mod.rs, lines 18-153).
pub mod RoundTrip
use ospfd.Common.{
  ℕ, zero, suc, ◌+◌, ◌≡◌, ◌^◌, ◌<◌, Option, none, some, List, [], ◌∷◌, ◌++◌, length, take, drop,
  ltb, ◌==◌, not, if◌then◌else◌, Ipv4Addr, IsU16, IsU32, be16, be32, u8_at, u16_at, u32_at, Outcome,
  ok, err, too_short, bad_version, bad_packet_type, ◌>>=◌,
}

pub data OspfPacketType : Type 0 where
  hello database_description link_state_request link_state_update link_state_ack : OspfPacketType

abbrev pub type_to_u8 : OspfPacketType → ℕ
type_to_u8 hello = 1
type_to_u8 database_description = 2
type_to_u8 link_state_request = 3
type_to_u8 link_state_update = 4
type_to_u8 link_state_ack = 5

abbrev pub type_from_u8 : ℕ → Option OspfPacketType
type_from_u8 (suc zero) = some hello
type_from_u8 (suc (suc zero)) = some database_description
type_from_u8 (suc (suc (suc zero))) = some link_state_request
type_from_u8 (suc (suc (suc (suc zero)))) = some link_state_update
type_from_u8 (suc (suc (suc (suc (suc zero))))) = some link_state_ack
type_from_u8 _ = none

abbrev pub ospf_header_len : ℕ
ospf_header_len = 24

abbrev pub ospf_version : ℕ
ospf_version = 2

-- `authentication` is the array of the eight bytes.
pub record OspfHeader : Type 0 where
  pub version : ℕ
  pub packet_type : OspfPacketType
  pub packet_length : ℕ
  pub router_id : Ipv4Addr
  pub area_id : Ipv4Addr
  pub checksum : ℕ
  pub au_type : ℕ
  pub authentication : List ℕ

abbrev pub packet_type_or : ℕ → Option OspfPacketType → Outcome OspfPacketType
packet_type_or v none = err (bad_packet_type v)
packet_type_or v (some t) = ok t

unfoldable pub parse_header : List ℕ → Outcome OspfHeader
parse_header data_ =
    if ltb (length data_) ospf_header_len
    then err (too_short ospf_header_len (length data_))
    else do
      ver ← u8_at data_ 0
      if not (ver == ospf_version) then err (bad_version ver) else do
        code ← u8_at data_ 1
        kind ← packet_type_or code (type_from_u8 code)
        len ← u16_at data_ 2
        rid ← u32_at data_ 4
        aid ← u32_at data_ 8
        sum ← u16_at data_ 12
        au ← u16_at data_ 14
        ok (record {
          version = ver;
          packet_type = kind;
          packet_length = len;
          router_id = rid;
          area_id = aid;
          checksum = sum;
          au_type = au;
          authentication = take 8 (drop 16 data_);
        })

-- The bytes that `encode` appends to its buffer.
unfoldable pub encode_header : OspfHeader → List ℕ
encode_header h =
    h.version
    ∷ type_to_u8 h.packet_type
    ∷ (be16 h.packet_length
        ++ (be32 h.router_id
            ++ (be32 h.area_id ++ (be16 h.checksum ++ (be16 h.au_type ++ h.authentication)))))

-- `OspfHeader::new`
unfoldable pub new_header : OspfPacketType → Ipv4Addr → Ipv4Addr → OspfHeader
new_header t rid aid = record {
  version = ospf_version;
  packet_type = t;
  packet_length = 0;
  router_id = rid;
  area_id = aid;
  checksum = 0;
  au_type = 0;
  authentication = 0 ∷ 0 ∷ 0 ∷ 0 ∷ 0 ∷ 0 ∷ 0 ∷ 0 ∷ [];
}
