-- ===== src/Spf/Tree.antt =====
-- The calculation of the shortest-path tree: the `while let Some(…) = heap.pop()` loop, which
-- `calculate_spf` and `calculate_spf_with_paths` both have (src/proto/spf.rs, lines 144-279 and
-- 553-635). Costs are u32 and added as in a release build, wrapping.
pub mod Pop
pub mod Walks
pub mod Relaxed
pub mod Links
pub mod Fuel
pub mod Round
pub mod Distances
pub mod Keeps
pub mod Hops
use Prim.Native.Nat.{compare, Ordering}
use ospfd.Common.{
  ℕ, zero, suc, ◌+◌, ◌%◌, ◌^◌, Bool, true, false, Option, none, some, List, [], ◌∷◌, ltb, ◌==◌,
  if◌then◌else◌, Ipv4Addr, Outcome, ok, fault, out_of_fuel,
}
use ospfd.Packet.Lsa.Header.Recency.{then_with}
use ospfd.Packet.Lsa.Body.{RouterLink, RouterLinkType, point_to_point, transit_network, LsaBody}
use ospfd.Packet.Lsa.Codec.{Lsa}
use ospfd.Spf.Table.{get, put, contains}

pub record NextHop : Type 0 where
  pub address : Ipv4Addr
  pub sw_if_index : ℕ

pub record SpfInterface : Type 0 where
  pub address : Ipv4Addr
  pub mask : Ipv4Addr
  pub sw_if_index : ℕ
  pub cost : ℕ

pub record SpfNeighbor : Type 0 where
  pub router_id : Ipv4Addr
  pub address : Ipv4Addr
  pub sw_if_index : ℕ

pub record SpfNode : Type 0 where
  pub router_id : Ipv4Addr
  pub cost : ℕ

-- `Ord for SpfNode`: the lower cost is the greater node, then the higher router id.
abbrev pub compare_node : SpfNode → SpfNode → Ordering
compare_node a b = then_with (compare b.cost a.cost) (compare a.router_id b.router_id)

abbrev pub is_less : SpfNode → SpfNode → Bool
is_less a b = elim (compare_node a b) [ Ordering.lt ↦ true | _ ↦ false ]

-- `BinaryHeap::pop`: a greatest node leaves the heap, which is a list in some order.
unfoldable pub extract : SpfNode → List SpfNode → SpfNode × List SpfNode
extract best [] = (best, [])
extract best (y ∷ ys) =
    let (kept, other) = if is_less best y then (y, best) else (best, y) in
    let (m, rest) = extract kept ys in (m, other ∷ rest)

abbrev pub pop : List SpfNode → Option (SpfNode × List SpfNode)
pop [] = none
pop (x ∷ xs) = some (extract x xs)

-- What the loop reads: the maps made from the database, the interfaces and the neighbors; and
-- `fallback`, how the address of an attached router that is no neighbor is found.
pub record Inputs : Type 0 where
  pub my_router_id : Ipv4Addr
  pub router_lsas : List (Ipv4Addr × Lsa)
  pub network_lsas : List (Ipv4Addr × Lsa)
  pub neighbor_map : List (Ipv4Addr × SpfNeighbor)
  pub iface_by_addr : List (Ipv4Addr × SpfInterface)
  pub fallback : Ipv4Addr → Ipv4Addr → Option Ipv4Addr

-- The loop's variables.
pub record Tree : Type 0 where
  pub dist : List (Ipv4Addr × ℕ)
  pub next_hops : List (Ipv4Addr × NextHop)
  pub visited : List Ipv4Addr
  pub heap : List SpfNode

-- `unwrap_or(&u32::MAX)`
abbrev pub or_max : Option ℕ → ℕ
or_max none = 0xFFFFFFFF
or_max (some c) = c

-- `new_cost_better`
unfoldable pub new_cost_better : List (Ipv4Addr × ℕ) → Ipv4Addr → ℕ → Bool
new_cost_better dist id new_cost = ltb new_cost (or_max (get id dist))

abbrev pub put_some :
    Ipv4Addr → Option NextHop → List (Ipv4Addr × NextHop) → List (Ipv4Addr × NextHop)
put_some id none hops = hops
put_some id (some nh) hops = put id nh hops

-- A better cost for a router is noted, with a next hop if there is one, and pushed.
unfoldable pub relax : Tree → Ipv4Addr → ℕ → Option NextHop → Tree
unfolding new_cost_better
relax t id new_cost nh =
    if new_cost_better t.dist id new_cost
    then record t {
      dist = put id new_cost t.dist;
      next_hops = put_some id nh t.next_hops;
      heap = record { router_id = id; cost = new_cost } ∷ t.heap;
    }
    else t

abbrev pub neighbor_hop : Option SpfNeighbor → Option NextHop
neighbor_hop none = none
neighbor_hop (some n) = some (record { address = n.address; sw_if_index = n.sw_if_index })

-- `neighbor_map.get(attached).map(…).or_else(…).unwrap_or(*attached)`
abbrev pub address_or : Option SpfNeighbor → Option Ipv4Addr → Ipv4Addr → Ipv4Addr
address_or (some n) found id = n.address
address_or none (some a) id = a
address_or none none id = id

abbrev pub index_or_zero : Option SpfInterface → ℕ
index_or_zero none = 0
index_or_zero (some i) = i.sw_if_index

unfoldable pub point_to_point_hop : Inputs → Tree → Ipv4Addr → Ipv4Addr → Option NextHop
point_to_point_hop i t from id =
    if from == i.my_router_id then neighbor_hop (get id i.neighbor_map) else get from t.next_hops

unfoldable pub attached_hop : Inputs → Tree → Ipv4Addr → RouterLink → Ipv4Addr → Option NextHop
attached_hop i t from link id =
    if from == i.my_router_id
    then some (record {
      address = address_or (get id i.neighbor_map) (i.fallback id link.link_id) id;
      sw_if_index = index_or_zero (get link.link_data i.iface_by_addr);
    })
    else get from t.next_hops

-- `for attached in &network_lsa.attached_routers`
unfoldable pub relax_attached : Inputs → Ipv4Addr → RouterLink → ℕ → List Ipv4Addr → Tree → Tree
relax_attached i from link net_cost [] t = t
relax_attached i from link net_cost (id ∷ ids) t =
    relax_attached i from link net_cost ids
      (if id == from then t else relax t id net_cost (attached_hop i t from link id))

-- The attached routers of a Network-LSA; without one, or with another body, there is nothing to
-- go through.
abbrev pub attached_of : Option Lsa → List Ipv4Addr
attached_of none = []
attached_of (some l) = elim (l.body) [ LsaBody.network n ↦ n.attached_routers | _ ↦ [] ]

abbrev pub links_of : Option Lsa → List RouterLink
links_of none = []
links_of (some l) = elim (l.body) [ LsaBody.router r ↦ r.links | _ ↦ [] ]

-- `match link.link_type`; stub and virtual links are passed over.
abbrev pub relax_link : RouterLinkType → Inputs → Ipv4Addr → ℕ → RouterLink → Tree → Tree
relax_link point_to_point i from cost link t =
    relax t link.link_id ((cost + link.metric) % 2 ^ 32) (point_to_point_hop i t from link.link_id)
relax_link transit_network i from cost link t =
    relax_attached i from link ((cost + link.metric) % 2 ^ 32)
      (attached_of (get link.link_id i.network_lsas)) t
relax_link _ i from cost link t = t

unfoldable pub relax_links : Inputs → Ipv4Addr → ℕ → List RouterLink → Tree → Tree
relax_links i from cost [] t = t
relax_links i from cost (l ∷ ls) t =
    relax_links i from cost ls (relax_link l.link_type i from cost l t)

-- The body of the loop, for a node that was popped.
unfoldable pub visit : Inputs → SpfNode → Tree → Tree
visit i n t =
    if contains n.router_id t.visited
    then t
    else relax_links i n.router_id n.cost (links_of (get n.router_id i.router_lsas))
        (record t { visited = n.router_id ∷ t.visited })

unfoldable pub search_tree : ℕ → Inputs → Tree → Outcome Tree
search_tree zero i t = fault out_of_fuel
search_tree (suc fuel) i t = elim (pop t.heap) [
  | none ↦ ok t
  | some (n, rest) ↦ search_tree fuel i (visit i n (record t { heap = rest }))
]

-- We start at cost 0.
unfoldable pub root : Inputs → Tree
root i = record {
  dist = (i.my_router_id, 0) ∷ [];
  next_hops = [];
  visited = [];
  heap = record { router_id = i.my_router_id; cost = 0 } ∷ [];
}
