-- ===== src/Spf/Tree/Hops.antt =====
-- Where a noted next hop leads, and that each router is noted once.
use ospfd.Common.{ℕ, ◌≡◌, refl, some, List, In, Ipv4Addr, ok}
use ospfd.Packet.Lsa.Body.{RouterLink, point_to_point, transit_network}
use ospfd.Spf.Table.{get, Distinct, nil, cons, put-Distinct}
use ospfd.Spf.Tree.{
  NextHop, SpfNeighbor, Inputs, Tree, address_or, index_or_zero, attached_of, root,
}
use ospfd.Spf.Tree.Walks.{LinkOf, Edge}
use ospfd.Spf.Tree.Fuel.{shortest_paths}
use ospfd.Spf.Tree.Keeps.{search_tree-Holds}

-- Sending to `nh` starts a walk to the router `v`: `nh` is a neighbor on a point-to-point link of
-- ours, or a router attached to a network that we have a link to, and the walk goes on from there.
pub data HopFor (i : Inputs) (nh : NextHop) : Ipv4Addr → Type 0 where
  neighbor :
      (l : RouterLink) (v : Ipv4Addr) (n : SpfNeighbor)
      → LinkOf i i.my_router_id l
      → l.link_type ≡ point_to_point
      → l.link_id ≡ v
      → get v i.neighbor_map ≡ some n
      → n.address ≡ nh.address
      → n.sw_if_index ≡ nh.sw_if_index
      → HopFor i nh v
  attached :
      (l : RouterLink) (v : Ipv4Addr)
      → LinkOf i i.my_router_id l
      → l.link_type ≡ transit_network
      → In v (attached_of (get l.link_id i.network_lsas))
      → address_or (get v i.neighbor_map) (i.fallback v l.link_id) v ≡ nh.address
      → index_or_zero (get l.link_data i.iface_by_addr) ≡ nh.sw_if_index
      → HopFor i nh v
  beyond : (u v : Ipv4Addr) (w : ℕ) → HopFor i nh u → Edge i u v w → HopFor i nh v

module _ (i : Inputs) where
  abbrev AllHops : List (Ipv4Addr × NextHop) → Type 0
  AllHops hops = (v : Ipv4Addr) (nh : NextHop) → get v hops ≡ some nh → HopFor i nh v

  pub dist-Distinct : (t : Tree) → shortest_paths i ≡ ok t → Distinct t.dist
  unfolding shortest_paths root get
  dist-Distinct t r =
      search_tree-Holds i (λ dist hops. Distinct dist)
        (λ dist hops u x c o choice h. put-Distinct x c dist h) _ (root i) t (root i).heap refl
        (cons refl nil) r
