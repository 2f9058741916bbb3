-- ===== src/Rib/Examples.antt =====
-- The route caches at a few routes.
use ospfd.Common.{ℕ, refl, List, [], ◌∷◌, map}
use ospfd.Spf.Routes.{SpfRoute, intra}
use ospfd.Rib.Cache.{RouteKey, lookup}
use ospfd.Rib.Cache.Laws.{values_at, Distinct, nil, cons}
use ospfd.Rib.V2
use ospfd.Rib.V2.{OspfRib}
use ospfd.Rib.V2.Laws.{Cheapest, update-Cheapest}
use ospfd.Rib.V3
use ospfd.Rib.V3.{Ospfv3Route, OspfRibV3}
use ospfd.Rib.V3.Laws.{Multipath, update_v3-Multipath}

abbrev net : RouteKey
net = record { prefix = 0x0A010000; prefix_len = 24 }

abbrev route : ℕ → ℕ → SpfRoute
route hop cost = record {
  prefix = 0x0A010000;
  prefix_len = 24;
  next_hop = hop;
  cost = cost;
  sw_if_index = 1;
  kind = intra;
}

abbrev routes : List SpfRoute
routes = route 101 20 ∷ route 102 10 ∷ []

abbrev cache : OspfRib
cache = record { installed = V2.entry_of (route 102 10) ∷ [] }

cache-Distinct : Distinct cache.installed
unfolding lookup
cache-Distinct = cons refl nil

update-Cheapest_example :
    Cheapest
      (lookup net (V2.update cache routes).0.installed)
      (values_at net (map V2.entry_of routes))
update-Cheapest_example = update-Cheapest cache routes net

abbrev route_v3 : ℕ → ℕ → Ospfv3Route
route_v3 hop cost = record {
  prefix = 0x0A010000;
  prefix_len = 24;
  next_hops = (hop, 1) ∷ [];
  cost = cost;
  kind = V3.Ospfv3RouteKind.intra;
}

abbrev routes_v3 : List Ospfv3Route
routes_v3 = route_v3 101 10 ∷ route_v3 102 10 ∷ route_v3 103 20 ∷ []

abbrev cache_v3 : OspfRibV3
cache_v3 = record { installed = [] }

update_v3-Multipath_example :
    Multipath
      (lookup net (V3.update_v3 cache_v3 routes_v3).0.installed)
      (values_at net (map V3.entry_of routes_v3))
update_v3-Multipath_example = update_v3-Multipath cache_v3 routes_v3 net
