-- ===== src/Spf/Routes/Costs.antt =====
-- The paths to the routers.
use ospfd.Common.{ℕ, ◌≢◌, Ipv4Addr}
use ospfd.Packet.Lsa.Codec.{Lsa}
use ospfd.Spf.Tree.{NextHop, Inputs, Tree}
use ospfd.Spf.Tree.Walks.{IsDistance}
use ospfd.Spf.Tree.Hops.{HopFor}

-- A path to the router `v`: it costs the distance, and its next hop starts a walk to `v`, if that
-- is not ourselves.
pub record IsPath (i : Inputs) (v : Ipv4Addr) (c : ℕ) (nh : NextHop) : Type 0 where
  pub distance : IsDistance i v c
  pub hop : v ≢ i.my_router_id → HopFor i nh v
