-- ===== src/PacketV3/Header.antt =====
-- The 16-byte packet header (src/packet_v3/header.rs).
use ospfd.Common.{
  ℕ, ◌+◌, ◌≡◌, refl, arith, Option, none, some, List, [], ◌∷◌, ◌++◌, length, ltb, leb, ◌==◌, not,
  if◌then◌else◌, Ipv4Addr, IsU16, IsU32, be16, be32, from_be16-be16, from_be32-be32, u8_at, u16_at,
  u32_at, Outcome, ok, err, fault, panic, too_short, bad_version, bad_packet_type, ◌>>=◌,
}

abbrev pub ospfv3_header_len : ℕ
ospfv3_header_len = 16

abbrev pub ospfv3_version : ℕ
ospfv3_version = 3

-- `u16::try_from(…).expect(…)`
abbrev pub ospfv3_total_length : ℕ → Outcome ℕ
ospfv3_total_length body_len =
    if leb (ospfv3_header_len + body_len) 65535
    then ok (ospfv3_header_len + body_len)
    else fault panic

pub data Ospfv3PacketType : Type 0 where
  hello database_description link_state_request link_state_update link_state_ack : Ospfv3PacketType

abbrev pub v3_type_to_u8 : Ospfv3PacketType → ℕ
v3_type_to_u8 hello = 1
v3_type_to_u8 database_description = 2
v3_type_to_u8 link_state_request = 3
v3_type_to_u8 link_state_update = 4
v3_type_to_u8 link_state_ack = 5

abbrev pub v3_type_from_u8 : ℕ → Option Ospfv3PacketType
v3_type_from_u8 v =
    if v == 1
    then some hello
    else (if v == 2
        then some database_description
        else (if v == 3
            then some link_state_request
            else (if v == 4
                then some link_state_update
                else (if v == 5 then some link_state_ack else none))))

pub record Ospfv3Header : Type 0 where
  pub version : ℕ
  pub packet_type : Ospfv3PacketType
  pub packet_length : ℕ
  pub router_id : Ipv4Addr
  pub area_id : Ipv4Addr
  pub checksum : ℕ
  pub instance_id : ℕ

-- `ok_or(PacketV3Error::BadPacketType(data[1]))`
abbrev pub v3_type_or : ℕ → Option Ospfv3PacketType → Outcome Ospfv3PacketType
v3_type_or v none = err (bad_packet_type v)
v3_type_or v (some t) = ok t

abbrev pub parse_v3_fields : List ℕ → Outcome Ospfv3Header
parse_v3_fields data_ = do
  code ← u8_at data_ 1
  kind ← v3_type_or code (v3_type_from_u8 code)
  len ← u16_at data_ 2
  router ← u32_at data_ 4
  area ← u32_at data_ 8
  sum ← u16_at data_ 12
  instance_ ← u8_at data_ 14
  ok (record {
    version = ospfv3_version;
    packet_type = kind;
    packet_length = len;
    router_id = router;
    area_id = area;
    checksum = sum;
    instance_id = instance_;
  })

unfoldable pub parse_v3_header : List ℕ → Outcome Ospfv3Header
parse_v3_header data_ =
    if ltb (length data_) ospfv3_header_len
    then err (too_short ospfv3_header_len (length data_))
    else do
      v ← u8_at data_ 0
      if not (v == ospfv3_version) then err (bad_version v) else parse_v3_fields data_

unfoldable pub encode_v3_header : Ospfv3Header → List ℕ
encode_v3_header h =
    h.version
    ∷ v3_type_to_u8 h.packet_type
    ∷ (be16 h.packet_length
        ++ (be32 h.router_id ++ (be32 h.area_id ++ (be16 h.checksum ++ (h.instance_id ∷ 0 ∷ [])))))

abbrev pub new_v3_header : Ospfv3PacketType → Ipv4Addr → Ipv4Addr → Ospfv3Header
new_v3_header kind router area = record {
  version = ospfv3_version;
  packet_type = kind;
  packet_length = 0;
  router_id = router;
  area_id = area;
  checksum = 0;
  instance_id = 0;
}

pub record IsV3Header (h : Ospfv3Header) : Type 0 where
  pub version : h.version ≡ ospfv3_version
  pub packet_length : IsU16 h.packet_length
  pub router_id : IsU32 h.router_id
  pub area_id : IsU32 h.area_id
  pub checksum : IsU16 h.checksum

type_back : (t : Ospfv3PacketType) → v3_type_from_u8 (v3_type_to_u8 t) ≡ some t
type_back hello = refl
type_back _ = refl

-- A version 3 header is read back from its bytes, whatever follows.
pub parse_v3_header-encode_v3_header :
    (h : Ospfv3Header) (rest : List ℕ)
    → IsV3Header h
    → parse_v3_header (encode_v3_header h ++ rest) ≡ ok h
unfolding parse_v3_header encode_v3_header
parse_v3_header-encode_v3_header h rest v = ground (
  arith,
  v.version,
  type_back h.packet_type,
  from_be16-be16 h.packet_length v.packet_length,
  from_be32-be32 h.router_id v.router_id,
  from_be32-be32 h.area_id v.area_id,
  from_be16-be16 h.checksum v.checksum,
)
