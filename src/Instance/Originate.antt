-- ===== src/Instance/Originate.antt =====
-- Originating Router- and Network-LSAs: `originate_router_lsas` and `originate_network_lsas`
-- (src/instance.rs). Summary- and AS-external-LSAs are in the child modules.
pub mod External
pub mod Summary
pub mod Masks
use ospfd.Common.{
  ℕ, ◌+◌, Bool, true, false, not, ◌&&◌, ◌||◌, Option, none, some, List, [], ◌∷◌, ◌++◌, map, length,
  ltb, leb, ◌==◌, if◌then◌else◌, Ipv4Addr, Outcome, ok, err, fault, panic, ◌>>=◌,
}
use ospfd.Packet.Hello.{standard}
use ospfd.Packet.Lsa.Header.{LsaKey, LsaType, lsa_header_len}
use ospfd.Packet.Lsa.Body.{
  RouterLink, point_to_point, transit_network, stub_network, LsaBody, NetworkLsa,
}
use ospfd.Packet.Lsa.Codec
use ospfd.Packet.Lsa.Codec.{Lsa, encode_body}
use ospfd.Neighbor.Machine.{Neighbor, is_full}
use ospfd.Interface.Election.{filter}
use ospfd.Interface.Machine.{OspfInterface, InterfaceState, NetworkType, code}
use ospfd.Area.{Area}
use ospfd.Lsdb.Store as Store
use ospfd.Lsdb.Store.{Lsdb, next_seq, install, originate_router_lsa}
use ospfd.Spf.Routes.{apply_mask}
use ospfd.Spf.Table.{get, put}
use ospfd.Instance.State.{OspfInstance, is_abr}

abbrev pub is_down : OspfInterface → Bool
is_down i = code i.state == code InterfaceState.down

abbrev pub peer_link : OspfInterface → Neighbor → RouterLink
peer_link i n = record {
  link_id = n.router_id;
  link_data = i.address;
  link_type = point_to_point;
  num_tos = 0;
  metric = i.cost;
}

-- The links to the neighbors that are Full.
unfoldable pub full_links : OspfInterface → List (Ipv4Addr × Neighbor) → List RouterLink
full_links i [] = []
full_links i ((id, n) ∷ ns) =
    let rest = full_links i ns in if is_full n.state then peer_link i n ∷ rest else rest

unfoldable pub any_full : List (Ipv4Addr × Neighbor) → Bool
any_full [] = false
any_full ((id, n) ∷ ns) = is_full n.state || any_full ns

abbrev pub stub_link : OspfInterface → RouterLink
stub_link i = record {
  link_id = apply_mask i.address i.mask;
  link_data = i.mask;
  link_type = stub_network;
  num_tos = 0;
  metric = i.cost;
}

-- 255.255.255.255
abbrev pub host_link : OspfInterface → RouterLink
host_link i = record {
  link_id = i.address;
  link_data = 0xFFFFFFFF;
  link_type = stub_network;
  num_tos = 0;
  metric = 0;
}

abbrev pub transit_link : OspfInterface → RouterLink
transit_link i = record {
  link_id = i.dr;
  link_data = i.address;
  link_type = transit_network;
  num_tos = 0;
  metric = i.cost;
}

-- `match iface.network_type`
unfoldable pub interface_links : NetworkType → OspfInterface → List RouterLink
interface_links NetworkType.point_to_point i = full_links i i.neighbors ++ (stub_link i ∷ [])
interface_links NetworkType.point_to_multipoint i = full_links i i.neighbors ++ (host_link i ∷ [])
interface_links _ i = (if any_full i.neighbors then transit_link i else stub_link i) ∷ []

unfoldable pub area_links : Ipv4Addr → List OspfInterface → List RouterLink
area_links area_id [] = []
area_links area_id (i ∷ is) =
    let rest = area_links area_id is in
    if not (i.area_id == area_id) || is_down i
    then rest
    else interface_links i.network_type i ++ rest

abbrev pub is_empty : {A : Type 0} → List A → Bool
is_empty [] = true
is_empty (_ ∷ _) = false

-- B_FLAG is 4 and E_FLAG is 2.
unfoldable pub router_flags : OspfInstance → ℕ
router_flags inst = (if is_abr inst then 4 else 0) + (if is_empty inst.redistribute then 0 else 2)

abbrev pub router_in_area :
    OspfInstance
    → Ipv4Addr
    → List RouterLink
    → ℕ
    → Option Area
    → Outcome (OspfInstance × List (Ipv4Addr × Lsa))
router_in_area inst area_id links now none = ok (inst, [])
router_in_area inst area_id links now (some a) = do
  p ← originate_router_lsa a.lsdb inst.router_id (router_flags inst) links standard now
  ok (record inst { areas = put area_id (record a { lsdb = p.0 }) inst.areas }, (area_id, p.1) ∷ [])

-- One area; an area that none of our interfaces is up in is left out.
unfoldable pub originate_in :
    OspfInstance → Ipv4Addr → ℕ → Outcome (OspfInstance × List (Ipv4Addr × Lsa))
originate_in inst area_id now =
    let links = area_links area_id inst.interfaces in
    if is_empty links
    then ok (inst, [])
    else router_in_area inst area_id links now (get area_id inst.areas)

unfoldable pub originate_each :
    OspfInstance → List Ipv4Addr → ℕ → Outcome (OspfInstance × List (Ipv4Addr × Lsa))
originate_each inst [] now = ok (inst, [])
originate_each inst (a ∷ as_) now = do
  p ← originate_in inst a now
  q ← originate_each p.0 as_ now
  ok (q.0, p.1 ++ q.1)

abbrev pub area_ids : OspfInstance → List Ipv4Addr
area_ids inst = map (λ (a : Ipv4Addr × Area). a.0) inst.areas

unfoldable pub originate_router_lsas :
    OspfInstance → ℕ → Outcome (OspfInstance × List (Ipv4Addr × Lsa))
originate_router_lsas inst now = originate_each inst (area_ids inst) now

-- An LSA of ours, before its checksum; `lsa_total_length` panics above 65535.
unfoldable pub own_lsa : Ipv4Addr → LsaType → Ipv4Addr → ℕ → LsaBody → Outcome Lsa
own_lsa rid kind id seq body =
    let len = lsa_header_len + length (encode_body body) in
    if ltb 65535 len
    then fault panic
    else ok (record {
      header = record {
        ls_age = 0;
        options = standard;
        ls_type = kind;
        link_state_id = id;
        advertising_router = rid;
        ls_sequence_number = seq;
        ls_checksum = 0;
        length = len;
      };
      body = body;
    })

-- `match Lsa::parse(&encoded)`: an error is passed over.
abbrev parsed : Outcome Lsa → Outcome (Option Lsa)
parsed (ok l) = ok (some l)
parsed (err e) = ok none
parsed (fault w) = fault w

unfoldable pub with_cksum : Lsa → Outcome (Option Lsa)
with_cksum l = do encoded ← Codec.encode l; parsed (Codec.parse encoded)

abbrev pub install_some : Lsdb → Option Lsa → ℕ → Lsdb
install_some db none now = db
install_some db (some l) now = (install db l now).0

abbrev pub own_key : Ipv4Addr → LsaType → Ipv4Addr → LsaKey
own_key rid kind id = record { ls_type = kind; link_state_id = id; advertising_router = rid }

-- The steps that the origination of each other type of LSA has: the sequence number behind that of
-- the entry, the length, the checksum, and `install`.
unfoldable pub install_own :
    Lsdb → Ipv4Addr → LsaType → Ipv4Addr → LsaBody → ℕ → Outcome (Lsdb × Option Lsa)
install_own db rid kind id body now = do
  l ← own_lsa rid kind id (next_seq (Store.get db (own_key rid kind id))) body
  c ← with_cksum l
  ok (install_some db c now, c)

-- `sort`
unfoldable pub insert_sorted : ℕ → List ℕ → List ℕ
insert_sorted x [] = x ∷ []
insert_sorted x (y ∷ ys) = let rest = insert_sorted x ys in if leb x y then x ∷ y ∷ ys else y ∷ rest

unfoldable pub sort : List ℕ → List ℕ
sort [] = []
sort (x ∷ xs) = insert_sorted x (sort xs)

abbrev has_full : Ipv4Addr × Neighbor → Bool
has_full (id, n) = is_full n.state

abbrev id_of : Ipv4Addr × Neighbor → Ipv4Addr
id_of (id, n) = n.router_id

unfoldable pub attached : Ipv4Addr → OspfInterface → List Ipv4Addr
attached rid i = sort (map id_of (filter has_full i.neighbors) ++ (rid ∷ []))

abbrev is_broadcast : NetworkType → Bool
is_broadcast NetworkType.broadcast = true
is_broadcast _ = false

unfoldable pub is_full_dr : OspfInterface → Bool
is_full_dr i =
    code i.state == code InterfaceState.dr && (is_broadcast i.network_type && any_full i.neighbors)

abbrev one_lsa : Ipv4Addr → Option Lsa → List (Ipv4Addr × Lsa)
one_lsa area_id none = []
one_lsa area_id (some l) = (area_id, l) ∷ []

-- Without the area, which every interface has one of from the start, nothing is installed or
-- returned.
abbrev pub network_in_area :
    OspfInstance → OspfInterface → ℕ → Option Area → Outcome (OspfInstance × List (Ipv4Addr × Lsa))
network_in_area inst i now none = ok (inst, [])
network_in_area inst i now (some a) = do
  p ←
      install_own a.lsdb inst.router_id LsaType.network i.address
        (LsaBody.network
          (record { network_mask = i.mask; attached_routers = attached inst.router_id i }))
        now
  ok (
    record inst { areas = put i.area_id (record a { lsdb = p.0 }) inst.areas },
    one_lsa i.area_id p.1,
  )

unfoldable pub originate_networks :
    OspfInstance → List OspfInterface → ℕ → Outcome (OspfInstance × List (Ipv4Addr × Lsa))
originate_networks inst [] now = ok (inst, [])
originate_networks inst (i ∷ is) now = do
  p ← network_in_area inst i now (get i.area_id inst.areas)
  q ← originate_networks p.0 is now
  ok (q.0, p.1 ++ q.1)

unfoldable pub originate_network_lsas :
    OspfInstance → ℕ → Outcome (OspfInstance × List (Ipv4Addr × Lsa))
originate_network_lsas inst now = originate_networks inst (filter is_full_dr inst.interfaces) now
