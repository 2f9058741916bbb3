-- ===== src/PacketV3/Bodies.antt =====
-- The LSA bodies but the AS-External one (src/packet_v3/lsa.rs, lines 184-488).
pub mod RoundTrip
use ospfd.Common.{
  slice_at, ℕ, ◌%◌, ◌^◌, List, [], ◌∷◌, ◌++◌, length, take, drop, ltb, if◌then◌else◌, Ipv4Addr,
  be16, be32, u8_at, u16_at, u32_at, Outcome, ok, err, too_short, ◌>>=◌,
}
use ospfd.Packet.Addresses.{addresses, encode_addresses}
use ospfd.Packet.Each.{parse_each, encode_each}
use ospfd.PacketV3.Bits24.{u24_at, be24}
use ospfd.PacketV3.Prefix.{
  Ospfv3Prefix, parse_prefix, encode_prefix, parse_prefixes, encode_prefixes,
}

pub record RouterLinkV3 : Type 0 where
  pub link_type : ℕ
  pub metric : ℕ
  pub interface_id : ℕ
  pub neighbor_interface_id : ℕ
  pub neighbor_router_id : Ipv4Addr

unfoldable pub parse_link_v3 : List ℕ → Outcome RouterLinkV3
parse_link_v3 data_ = if ltb (length data_) 16 then err (too_short 16 (length data_)) else do
  kind ← u8_at data_ 0
  m ← u16_at data_ 2
  id ← u32_at data_ 4
  nid ← u32_at data_ 8
  router ← u32_at data_ 12
  ok (record {
    link_type = kind;
    metric = m;
    interface_id = id;
    neighbor_interface_id = nid;
    neighbor_router_id = router;
  })

unfoldable pub encode_link_v3 : RouterLinkV3 → List ℕ
encode_link_v3 l =
    l.link_type
    ∷ 0
    ∷ (be16 l.metric
        ++ (be32 l.interface_id ++ (be32 l.neighbor_interface_id ++ be32 l.neighbor_router_id)))

pub record RouterLsaV3 : Type 0 where
  pub flags : ℕ
  pub options : ℕ
  pub links : List RouterLinkV3

unfoldable pub parse_router_v3 : List ℕ → Outcome RouterLsaV3
parse_router_v3 data_ = if ltb (length data_) 4 then err (too_short 4 (length data_)) else do
  fl ← u8_at data_ 0
  opts ← u24_at data_ 1
  ls ← parse_each 16 parse_link_v3 (drop 4 data_)
  ok (record { flags = fl; options = opts; links = ls })

unfoldable pub encode_router_v3 : RouterLsaV3 → List ℕ
encode_router_v3 r = r.flags ∷ (be24 r.options ++ encode_each encode_link_v3 r.links)

pub record NetworkLsaV3 : Type 0 where
  pub options : ℕ
  pub attached_routers : List Ipv4Addr

unfoldable pub parse_network_v3 : List ℕ → Outcome NetworkLsaV3
parse_network_v3 data_ = if ltb (length data_) 4 then err (too_short 4 (length data_)) else do
  opts ← u24_at data_ 1
  ok (record { options = opts; attached_routers = addresses (drop 4 data_) })

unfoldable pub encode_network_v3 : NetworkLsaV3 → List ℕ
encode_network_v3 n = 0 ∷ (be24 n.options ++ encode_addresses n.attached_routers)

-- An Ipv6Addr is the list of its octets.
pub record LinkLsaV3 : Type 0 where
  pub router_priority : ℕ
  pub options : ℕ
  pub link_local_address : List ℕ
  pub prefixes : List Ospfv3Prefix

unfoldable pub parse_link_lsa_v3 : List ℕ → Outcome LinkLsaV3
parse_link_lsa_v3 data_ = if ltb (length data_) 24 then err (too_short 24 (length data_)) else do
  pri ← u8_at data_ 0
  opts ← u24_at data_ 1
  octets ← slice_at data_ 4 16
  n ← u32_at data_ 20
  ps ← parse_prefixes n (drop 24 data_)
  ok (record { router_priority = pri; options = opts; link_local_address = octets; prefixes = ps })

-- `self.prefixes.len() as u32`
unfoldable pub encode_link_lsa_v3 : LinkLsaV3 → Outcome (List ℕ)
encode_link_lsa_v3 l = do
  ps ← encode_prefixes l.prefixes
  ok (
      l.router_priority
      ∷ (be24 l.options ++ (l.link_local_address ++ (be32 (length l.prefixes % 2 ^ 32) ++ ps))))

pub record IntraAreaPrefixLsaV3 : Type 0 where
  pub referenced_ls_type : ℕ
  pub referenced_link_state_id : Ipv4Addr
  pub referenced_advertising_router : Ipv4Addr
  pub prefixes : List Ospfv3Prefix

unfoldable pub parse_intra_v3 : List ℕ → Outcome IntraAreaPrefixLsaV3
parse_intra_v3 data_ = if ltb (length data_) 12 then err (too_short 12 (length data_)) else do
  n ← u16_at data_ 0
  kind ← u16_at data_ 2
  id ← u32_at data_ 4
  adv ← u32_at data_ 8
  ps ← parse_prefixes n (drop 12 data_)
  ok (record {
    referenced_ls_type = kind;
    referenced_link_state_id = id;
    referenced_advertising_router = adv;
    prefixes = ps;
  })

-- `self.prefixes.len() as u16`
unfoldable pub encode_intra_v3 : IntraAreaPrefixLsaV3 → Outcome (List ℕ)
encode_intra_v3 l = do
  ps ← encode_prefixes l.prefixes
  ok (
      be16 (length l.prefixes % 2 ^ 16)
      ++ (be16 l.referenced_ls_type
          ++ (be32 l.referenced_link_state_id ++ (be32 l.referenced_advertising_router ++ ps))))

pub record InterAreaPrefixLsaV3 : Type 0 where
  pub metric : ℕ
  pub prefix : Ospfv3Prefix

unfoldable pub parse_inter_v3 : List ℕ → Outcome InterAreaPrefixLsaV3
parse_inter_v3 data_ = if ltb (length data_) 4 then err (too_short 4 (length data_)) else do
  m ← u24_at data_ 1
  r ← parse_prefix (drop 4 data_)
  ok (record { metric = m; prefix = r.0 })

unfoldable pub encode_inter_v3 : InterAreaPrefixLsaV3 → Outcome (List ℕ)
encode_inter_v3 l = do p ← encode_prefix l.prefix; ok (0 ∷ (be24 l.metric ++ p))
