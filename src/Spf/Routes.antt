-- ===== src/Spf/Routes.antt =====
-- The routes: `calculate_spf`, `calculate_spf_with_paths`, `calculate_inter_area_routes` and
-- `calculate_external_routes` (src/proto/spf.rs). A HashMap is gone through in the order of its
-- list.
pub mod Masks
pub mod Costs
pub mod Beyond
pub mod Intra
use ospfd.Common.{
  ℕ, zero, suc, ◌+◌, ◌/◌, ◌%◌, ◌^◌, min, Bool, true, false, not, ◌&&◌, ◌||◌, Option, none, some,
  List, [], ◌∷◌, ◌++◌, ◌==◌, if◌then◌else◌, Ipv4Addr, unspecified, Outcome, ok, ◌>>=◌,
}
use Prim.Native.Nat.{bit_and}
use ospfd.Packet.Lsa.Header.{LsaKey, LsaType, to_u8}
use ospfd.Packet.Lsa.Body.{
  RouterLink, RouterLinkType, transit_network, stub_network, SummaryLsa, AsExternalLsa, LsaBody,
}
use ospfd.Packet.Lsa.Codec.{Lsa}
use ospfd.Spf.Table.{get, put, collect}
use ospfd.Spf.Tree.{NextHop, SpfInterface, SpfNeighbor, Inputs, Tree, links_of, attached_of}
use ospfd.Spf.Tree.Fuel.{shortest_paths}

pub data OspfRouteKind : Type 0 where
  intra inter external1 external2 : OspfRouteKind

pub record SpfRoute : Type 0 where
  pub prefix : Ipv4Addr
  pub prefix_len : ℕ
  pub next_hop : Ipv4Addr
  pub cost : ℕ
  pub sw_if_index : ℕ
  pub kind : OspfRouteKind

-- `count_ones` of the lowest `n` bits.
unfoldable pub count_ones : ℕ → ℕ → ℕ
count_ones zero x = 0
count_ones (suc n) x = x % 2 + count_ones n (x / 2)

unfoldable pub mask_to_prefix_len : Ipv4Addr → ℕ
mask_to_prefix_len mask = count_ones 32 mask

unfoldable pub apply_mask : Ipv4Addr → Ipv4Addr → Ipv4Addr
apply_mask addr mask = bit_and addr mask

-- The entries that `f` makes something of.
abbrev pub filter_map {ℓ κ} : {A : Type ℓ} {B : Type κ} → (A → Option B) → List A → List B
filter_map f [] = []
filter_map f (x ∷ xs) = let rest = filter_map f xs in elim (f x) [ none ↦ rest | some y ↦ y ∷ rest ]

-- `lsdb.values().filter(…).map(…)`
unfoldable pub router_entry : LsaKey × Lsa → Option (Ipv4Addr × Lsa)
router_entry (k, l) =
    if to_u8 l.header.ls_type == 1 then some (l.header.advertising_router, l) else none

unfoldable pub network_entry : LsaKey × Lsa → Option (Ipv4Addr × Lsa)
network_entry (k, l) =
    if to_u8 l.header.ls_type == 2 then some (l.header.link_state_id, l) else none

abbrev neighbor_entry : SpfNeighbor → Option (Ipv4Addr × SpfNeighbor)
neighbor_entry n = some (n.router_id, n)

abbrev interface_entry : SpfInterface → Option (Ipv4Addr × SpfInterface)
interface_entry i = some (i.address, i)

-- `link.link_type == …`
abbrev is_transit : RouterLinkType → Bool
is_transit transit_network = true
is_transit _ = false

abbrev pub is_stub : RouterLinkType → Bool
is_stub stub_network = true
is_stub _ = false

abbrev find_link : List RouterLink → Ipv4Addr → Option Ipv4Addr
find_link [] dr_addr = none
find_link (l ∷ ls) dr_addr =
    if is_transit l.link_type && l.link_id == dr_addr
    then some l.link_data
    else find_link ls dr_addr

unfoldable pub find_router_iface_on_network :
    List (Ipv4Addr × Lsa) → Ipv4Addr → Ipv4Addr → Option Ipv4Addr
find_router_iface_on_network router_lsas router_id dr_addr =
    find_link (links_of (get router_id router_lsas)) dr_addr

-- The maps that both calculations make first; they differ in `fallback`.
unfoldable pub inputs :
    Ipv4Addr
    → List (LsaKey × Lsa)
    → List SpfInterface
    → List SpfNeighbor
    → (List (Ipv4Addr × Lsa) → Ipv4Addr → Ipv4Addr → Option Ipv4Addr)
    → Inputs
inputs my_router_id lsdb interfaces neighbors fallback =
    let router_lsas = collect [] (filter_map router_entry lsdb) in
    record {
      my_router_id = my_router_id;
      router_lsas = router_lsas;
      network_lsas = collect [] (filter_map network_entry lsdb);
      neighbor_map = collect [] (filter_map neighbor_entry neighbors);
      iface_by_addr = collect [] (filter_map interface_entry interfaces);
      fallback = fallback router_lsas;
    }

abbrev pub hop_or_unspecified : Option NextHop → NextHop
hop_or_unspecified (some nh) = nh
hop_or_unspecified none = record { address = unspecified; sw_if_index = 0 }

-- Pass 2: the route of a stub link of a router at a cost. Our own links make none.
abbrev pub stub_link_route : Tree → Ipv4Addr → ℕ → RouterLink → SpfRoute
stub_link_route t router_id cost link =
    let nh = hop_or_unspecified (get router_id t.next_hops) in
    record {
      prefix = link.link_id;
      prefix_len = mask_to_prefix_len link.link_data;
      next_hop = nh.address;
      cost = (cost + link.metric) % 2 ^ 32;
      sw_if_index = nh.sw_if_index;
      kind = intra;
    }

unfoldable pub stub_route : Inputs → Tree → Ipv4Addr → ℕ → RouterLink → Option SpfRoute
stub_route i t router_id cost link =
    if is_stub link.link_type && not (router_id == i.my_router_id)
    then some (stub_link_route t router_id cost link)
    else none

unfoldable pub stub_routes : Inputs → Tree → List (Ipv4Addr × ℕ) → List SpfRoute
stub_routes i t [] = []
stub_routes i t ((router_id, cost) ∷ dist) =
    filter_map (stub_route i t router_id cost) (links_of (get router_id i.router_lsas))
    ++ stub_routes i t dist

abbrev any_is : Ipv4Addr → List Ipv4Addr → Bool
any_is a [] = false
any_is a (b ∷ bs) = b == a || any_is a bs

-- Pass 3: the route of a transit network, at the cost of its designated router.
abbrev network_route_at : Inputs → Tree → Ipv4Addr → Lsa → Option ℕ → LsaBody → Option SpfRoute
network_route_at i t dr_addr l (some dr_cost) (LsaBody.network n) =
    if any_is i.my_router_id n.attached_routers
    then none
    else (let nh = hop_or_unspecified (get l.header.advertising_router t.next_hops) in
        some (record {
          prefix = apply_mask dr_addr n.network_mask;
          prefix_len = mask_to_prefix_len n.network_mask;
          next_hop = nh.address;
          cost = dr_cost;
          sw_if_index = nh.sw_if_index;
          kind = intra;
        }))
network_route_at i t dr_addr l _ _ = none

unfoldable pub network_route : Inputs → Tree → Ipv4Addr × Lsa → Option SpfRoute
network_route i t (dr_addr, l) =
    network_route_at i t dr_addr l (get l.header.advertising_router t.dist) l.body

unfoldable pub routes_of : Inputs → Tree → List SpfRoute
routes_of i t = stub_routes i t t.dist ++ filter_map (network_route i t) i.network_lsas

unfoldable pub calculate_spf :
    Ipv4Addr → List (LsaKey × Lsa) → List SpfInterface → List SpfNeighbor → Outcome (List SpfRoute)
calculate_spf my_router_id lsdb interfaces neighbors = do
  let i = inputs my_router_id lsdb interfaces neighbors find_router_iface_on_network
  t ← shortest_paths i
  ok (routes_of i t)

-- The path to a router, if there is a next hop for it or it is ourselves.
abbrev path_at : Ipv4Addr → Ipv4Addr → ℕ → Option NextHop → Option (Ipv4Addr × (ℕ × NextHop))
path_at my_router_id rid c (some nh) = some (rid, (c, nh))
path_at my_router_id rid c none =
    if rid == my_router_id
    then some (rid, (0, record { address = unspecified; sw_if_index = 0 }))
    else none

unfoldable pub path_entry : Ipv4Addr → Tree → Ipv4Addr × ℕ → Option (Ipv4Addr × (ℕ × NextHop))
path_entry my_router_id t (rid, c) = path_at my_router_id rid c (get rid t.next_hops)

unfoldable pub paths_of : Ipv4Addr → Tree → List (Ipv4Addr × (ℕ × NextHop))
paths_of my_router_id t = collect [] (filter_map (path_entry my_router_id t) t.dist)

-- The second calculation has no fallback for the address of an attached router.
abbrev pub no_fallback : List (Ipv4Addr × Lsa) → Ipv4Addr → Ipv4Addr → Option Ipv4Addr
no_fallback router_lsas router_id dr_addr = none

unfoldable pub calculate_spf_with_paths :
    Ipv4Addr
    → List (LsaKey × Lsa)
    → List SpfInterface
    → List SpfNeighbor
    → Outcome (List SpfRoute × List (Ipv4Addr × (ℕ × NextHop)))
calculate_spf_with_paths my_router_id lsdb interfaces neighbors = do
  routes ← calculate_spf my_router_id lsdb interfaces neighbors
  t ← shortest_paths (inputs my_router_id lsdb interfaces neighbors no_fallback)
  ok (routes, paths_of my_router_id t)

abbrev pub saturating_add : ℕ → ℕ → ℕ
saturating_add a b = min (a + b) 0xFFFFFFFF

abbrev pub summary_route : Lsa → SummaryLsa → ℕ → NextHop → SpfRoute
summary_route l s abr_cost nh = record {
  prefix = apply_mask l.header.link_state_id s.network_mask;
  prefix_len = mask_to_prefix_len s.network_mask;
  next_hop = nh.address;
  cost = saturating_add abr_cost s.metric;
  sw_if_index = nh.sw_if_index;
  kind = inter;
}

abbrev inter_area_at : Lsa → Option (ℕ × NextHop) → LsaBody → Option SpfRoute
inter_area_at l (some (abr_cost, nh)) (LsaBody.summary s) = some (summary_route l s abr_cost nh)
inter_area_at l _ _ = none

unfoldable pub inter_area_route : List (Ipv4Addr × (ℕ × NextHop)) → LsaKey × Lsa → Option SpfRoute
inter_area_route router_paths (k, l) =
    if to_u8 k.ls_type == 3
    then inter_area_at l (get l.header.advertising_router router_paths) l.body
    else none

unfoldable pub calculate_inter_area_routes :
    List (LsaKey × Lsa) → List (Ipv4Addr × (ℕ × NextHop)) → List SpfRoute
calculate_inter_area_routes lsdb router_paths = filter_map (inter_area_route router_paths) lsdb

-- Whether or not a forwarding address is set, the next hop is the one to the ASBR.
abbrev pub as_external_route : Lsa → AsExternalLsa → ℕ → NextHop → SpfRoute
as_external_route l x asbr_cost asbr_nh = record {
  prefix = apply_mask l.header.link_state_id x.network_mask;
  prefix_len = mask_to_prefix_len x.network_mask;
  next_hop = asbr_nh.address;
  cost = if x.metric_type_2 then x.metric else saturating_add asbr_cost x.metric;
  sw_if_index = asbr_nh.sw_if_index;
  kind = if x.metric_type_2 then external2 else external1;
}

abbrev external_at : Lsa → Option (ℕ × NextHop) → LsaBody → Option SpfRoute
external_at l (some (asbr_cost, asbr_nh)) (LsaBody.as_external x) =
    some (as_external_route l x asbr_cost asbr_nh)
external_at l _ _ = none

unfoldable pub external_route : List (Ipv4Addr × (ℕ × NextHop)) → LsaKey × Lsa → Option SpfRoute
external_route router_paths (k, l) =
    if to_u8 k.ls_type == 5
    then external_at l (get l.header.advertising_router router_paths) l.body
    else none

unfoldable pub calculate_external_routes :
    List (LsaKey × Lsa) → List (Ipv4Addr × (ℕ × NextHop)) → List SpfRoute
calculate_external_routes as_external_lsas router_paths =
    filter_map (external_route router_paths) as_external_lsas
