-- ===== src/Packet/Lsa/Body.antt =====
-- The LSA bodies (src/packet/lsa.rs, lines 165-466): their records, `parse` and `encode`. Each
-- `encode_…` is the bytes that the method appends to its buffer.
pub mod RoundTrip
use ospfd.Common.{
  ℕ, zero, suc, ◌+◌, ◌*◌, ◌/◌, ◌%◌, ◌<◌, ◌≡◌, Bool, true, false, Option, none, some, List, [], ◌∷◌,
  ◌++◌, All, length, drop, ltb, leb, if◌then◌else◌, Ipv4Addr, IsU8, IsU16, IsU32, be16, be32,
  from_be32, u8_at, u16_at, u32_at, Outcome, ok, err, too_short, bad_lsa_type, ◌>>=◌,
}
use ospfd.Packet.Addresses.{addresses, encode_addresses}

pub data RouterLinkType : Type 0 where
  point_to_point transit_network stub_network virtual_link : RouterLinkType

abbrev pub link_type_to_u8 : RouterLinkType → ℕ
link_type_to_u8 point_to_point = 1
link_type_to_u8 transit_network = 2
link_type_to_u8 stub_network = 3
link_type_to_u8 virtual_link = 4

abbrev pub link_type_from_u8 : ℕ → Option RouterLinkType
link_type_from_u8 (suc zero) = some point_to_point
link_type_from_u8 (suc (suc zero)) = some transit_network
link_type_from_u8 (suc (suc (suc zero))) = some stub_network
link_type_from_u8 (suc (suc (suc (suc zero)))) = some virtual_link
link_type_from_u8 _ = none

pub record RouterLink : Type 0 where
  pub link_id : Ipv4Addr
  pub link_data : Ipv4Addr
  pub link_type : RouterLinkType
  pub num_tos : ℕ
  pub metric : ℕ

-- `ok_or(PacketError::BadLsaType(v))`
abbrev pub link_type_or : ℕ → Option RouterLinkType → Outcome RouterLinkType
link_type_or v none = err (bad_lsa_type v)
link_type_or v (some t) = ok t

unfoldable pub parse_link : List ℕ → Outcome RouterLink
parse_link data_ = if ltb (length data_) 12 then err (too_short 12 (length data_)) else do
  id ← u32_at data_ 0
  ld ← u32_at data_ 4
  code ← u8_at data_ 8
  kind ← link_type_or code (link_type_from_u8 code)
  tos ← u8_at data_ 9
  m ← u16_at data_ 10
  ok (record { link_id = id; link_data = ld; link_type = kind; num_tos = tos; metric = m })

unfoldable pub encode_link : RouterLink → List ℕ
encode_link l =
    be32 l.link_id
    ++ (be32 l.link_data ++ (link_type_to_u8 l.link_type ∷ l.num_tos ∷ be16 l.metric))

abbrev pub wire_size : RouterLink → ℕ
wire_size l = 12 + l.num_tos * 4

pub record RouterLsa : Type 0 where
  pub flags : ℕ
  pub links : List RouterLink

-- The rounds left of `for _ in 0..num_links`, and `data[off..]`, empty once `off` is past the end.
unfoldable pub parse_links : ℕ → List ℕ → Outcome (List RouterLink)
parse_links zero d = ok []
parse_links (suc n) d = elim (ltb (length d) 12) [
  | true ↦ ok []
  | false ↦ do link ← parse_link d; rest ← parse_links n (drop (wire_size link) d); ok (link ∷ rest)
]

unfoldable pub parse_router : List ℕ → Outcome RouterLsa
parse_router data_ = if ltb (length data_) 4 then err (too_short 4 (length data_)) else do
  fl ← u8_at data_ 0
  num_links ← u16_at data_ 2
  ls ← parse_links num_links (drop 4 data_)
  ok (record { flags = fl; links = ls })

unfoldable pub encode_links : List RouterLink → List ℕ
encode_links [] = []
encode_links (l ∷ ls) = encode_link l ++ encode_links ls

-- `self.links.len() as u16`
unfoldable pub encode_router : RouterLsa → List ℕ
encode_router r = r.flags ∷ 0 ∷ (be16 (length r.links % 65536) ++ encode_links r.links)

pub record NetworkLsa : Type 0 where
  pub network_mask : Ipv4Addr
  pub attached_routers : List Ipv4Addr

unfoldable pub parse_network : List ℕ → Outcome NetworkLsa
parse_network data_ = if ltb (length data_) 4 then err (too_short 4 (length data_)) else do
  mask ← u32_at data_ 0
  ok (record { network_mask = mask; attached_routers = addresses (drop 4 data_) })

unfoldable pub encode_network : NetworkLsa → List ℕ
encode_network n = be32 n.network_mask ++ encode_addresses n.attached_routers

pub record AsExternalLsa : Type 0 where
  pub network_mask : Ipv4Addr
  pub metric_type_2 : Bool
  pub metric : ℕ
  pub forwarding_address : Ipv4Addr
  pub external_route_tag : ℕ

-- A 24-bit metric: `u32::from_be_bytes([0, data[i], data[i + 1], data[i + 2]])`, and the last
-- three bytes of `to_be_bytes`.
abbrev metric_at : List ℕ → ℕ → Outcome ℕ
metric_at data_ i = do
  a ← u8_at data_ i
  b ← u8_at data_ (i + 1)
  c ← u8_at data_ (i + 2)
  ok (from_be32 0 a b c)

abbrev be24 : ℕ → List ℕ
be24 m = (m / 65536 % 256) ∷ (m / 256 % 256) ∷ (m % 256) ∷ []

-- `(data[4] & 0x80) != 0`: the top bit of a byte.
unfoldable pub parse_external : List ℕ → Outcome AsExternalLsa
parse_external data_ = if ltb (length data_) 16 then err (too_short 16 (length data_)) else do
  mask ← u32_at data_ 0
  e ← u8_at data_ 4
  m ← metric_at data_ 5
  fwd ← u32_at data_ 8
  tag ← u32_at data_ 12
  ok (record {
    network_mask = mask;
    metric_type_2 = leb 128 (e % 256);
    metric = m;
    forwarding_address = fwd;
    external_route_tag = tag;
  })

unfoldable pub encode_external : AsExternalLsa → List ℕ
encode_external x =
    be32 x.network_mask
    ++ ((if x.metric_type_2 then 128 else 0)
        ∷ (be24 x.metric ++ (be32 x.forwarding_address ++ be32 x.external_route_tag)))

pub record SummaryLsa : Type 0 where
  pub network_mask : Ipv4Addr
  pub metric : ℕ

unfoldable pub parse_summary : List ℕ → Outcome SummaryLsa
parse_summary data_ = if ltb (length data_) 8 then err (too_short 8 (length data_)) else do
  mask ← u32_at data_ 0
  m ← metric_at data_ 5
  ok (record { network_mask = mask; metric = m })

unfoldable pub encode_summary : SummaryLsa → List ℕ
encode_summary s = be32 s.network_mask ++ (0 ∷ be24 s.metric)

pub data LsaBody : Type 0 where
  router : RouterLsa → LsaBody
  network : NetworkLsa → LsaBody
  summary : SummaryLsa → LsaBody
  as_external : AsExternalLsa → LsaBody
  opaque : List ℕ → LsaBody
