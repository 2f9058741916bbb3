-- ===== src/Rib/V2.antt =====
-- The OSPFv2 route cache (src/rib.rs): the last output of the shortest-path calculation.
pub mod Laws
use ospfd.Common.{
  ℕ, Bool, true, false, ◌&&◌, List, [], ◌∷◌, length, map, ltb, ◌==◌, if◌then◌else◌, Ipv4Addr,
}
use ospfd.Spf.Routes.{OspfRouteKind, intra, inter, external1, external2, SpfRoute}
use ospfd.Rib.Cache.{RouteKey, apply_routes}

pub record RouteValue : Type 0 where
  pub next_hop : Ipv4Addr
  pub cost : ℕ
  pub sw_if_index : ℕ
  pub kind : OspfRouteKind

pub record OspfRib : Type 0 where
  pub installed : List (RouteKey × RouteValue)

abbrev pub kind_eq : OspfRouteKind → OspfRouteKind → Bool
kind_eq intra intra = true
kind_eq inter inter = true
kind_eq external1 external1 = true
kind_eq external2 external2 = true
kind_eq a b = false

-- The derived `==`.
abbrev pub value_eq : RouteValue → RouteValue → Bool
value_eq a b =
    a.next_hop == b.next_hop
    && a.cost == b.cost
    && a.sw_if_index == b.sw_if_index
    && kind_eq a.kind b.kind

abbrev pub keep_cheaper : RouteValue → RouteValue → RouteValue
keep_cheaper existing val = if ltb val.cost existing.cost then val else existing

abbrev pub entry_of : SpfRoute → RouteKey × RouteValue
entry_of route = (
  record { prefix = route.prefix; prefix_len = route.prefix_len },
  record {
    next_hop = route.next_hop;
    cost = route.cost;
    sw_if_index = route.sw_if_index;
    kind = route.kind;
  },
)

-- `OspfRib::apply_routes`
unfoldable pub update : OspfRib → List SpfRoute → OspfRib × ℕ × ℕ
update rib new_routes =
    let r = apply_routes keep_cheaper value_eq rib.installed (map entry_of new_routes) in
    (record { installed = r.0 }, r.1, r.2)

abbrev pub clear : OspfRib → OspfRib
clear rib = record { installed = [] }

abbrev pub route_count : OspfRib → ℕ
route_count rib = length rib.installed

abbrev pub route_of : RouteKey × RouteValue → SpfRoute
route_of (k, v) = record {
  prefix = k.prefix;
  prefix_len = k.prefix_len;
  next_hop = v.next_hop;
  cost = v.cost;
  sw_if_index = v.sw_if_index;
  kind = v.kind;
}

unfoldable pub installed_routes : OspfRib → List SpfRoute
installed_routes rib = map route_of rib.installed
