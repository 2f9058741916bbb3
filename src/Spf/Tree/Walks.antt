-- ===== src/Spf/Tree/Walks.antt =====
-- The graph that the tree is calculated on, described without the calculation: what link leads
-- where at what cost, and the costs of the walks from ourselves.
use ospfd.Common.{ℕ, ◌+◌, ◌≤◌, ◌≡◌, ◌≢◌, In, Ipv4Addr}
use ospfd.Packet.Lsa.Body.{RouterLink, point_to_point, transit_network}
use ospfd.Spf.Table.{get}
use ospfd.Spf.Tree.{Inputs, links_of, attached_of}

abbrev pub LinkOf : Inputs → Ipv4Addr → RouterLink → Type 0
LinkOf i u l = In l (links_of (get u i.router_lsas))

-- The router `u` has a link to the router `v` with the metric `w`: a point-to-point link, or one
-- to a transit network whose Network-LSA lists `v`.
pub data Edge (i : Inputs) (u : Ipv4Addr) : Ipv4Addr → ℕ → Type 0 where
  direct :
      (l : RouterLink) (v : Ipv4Addr) (w : ℕ)
      → LinkOf i u l
      → l.link_type ≡ point_to_point
      → l.link_id ≡ v
      → l.metric ≡ w
      → Edge i u v w
  across :
      (l : RouterLink) (v : Ipv4Addr) (w : ℕ)
      → LinkOf i u l
      → l.link_type ≡ transit_network
      → In v (attached_of (get l.link_id i.network_lsas))
      → v ≢ u
      → l.metric ≡ w
      → Edge i u v w

-- There is a walk from ourselves to `v` of the cost `c`.
pub data Walk (i : Inputs) : Ipv4Addr → ℕ → Type 0 where
  here : (v : Ipv4Addr) (c : ℕ) → i.my_router_id ≡ v → 0 ≡ c → Walk i v c
  along : (u v : Ipv4Addr) (c w d : ℕ) → Walk i u c → Edge i u v w → c + w ≡ d → Walk i v d

-- `d` is the least cost of a walk to `v`.
pub record IsDistance (i : Inputs) (v : Ipv4Addr) (d : ℕ) : Type 0 where
  pub reached : Walk i v d
  pub least : (c : ℕ) → Walk i v c → d ≤ c
