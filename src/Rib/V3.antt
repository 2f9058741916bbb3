-- ===== src/Rib/V3.antt =====
-- The OSPFv3 route cache (src/rib_v3.rs): routes of equal cost for a prefix are merged into one with
-- the next hops of both.
pub mod Laws
use ospfd.Common.{
  ℕ, Bool, true, false, ◌&&◌, ◌||◌, List, [], ◌∷◌, ◌++◌, length, map, ltb, ◌==◌, if◌then◌else◌,
}
use ospfd.Rib.Cache.{RouteKey, apply_routes}

-- `OspfRouteKind` and `Ospfv3Route` of the calculation; an Ipv6Addr is the number of its 128 bits.
pub data Ospfv3RouteKind : Type 0 where
  intra inter external1 external2 : Ospfv3RouteKind

pub record Ospfv3Route : Type 0 where
  pub prefix : ℕ
  pub prefix_len : ℕ
  pub next_hops : List (ℕ × ℕ)
  pub cost : ℕ
  pub kind : Ospfv3RouteKind

pub record RouteValue : Type 0 where
  pub next_hops : List (ℕ × ℕ)
  pub cost : ℕ

pub record OspfRibV3 : Type 0 where
  pub installed : List (RouteKey × RouteValue)

abbrev pub hop_eq : ℕ × ℕ → ℕ × ℕ → Bool
hop_eq (a, i) (b, j) = a == b && i == j

unfoldable pub hops_contain : List (ℕ × ℕ) → ℕ × ℕ → Bool
hops_contain [] h = false
hops_contain (g ∷ gs) h = hop_eq g h || hops_contain gs h

-- `for nh in &val.next_hops`: those that are not there yet are pushed.
unfoldable pub add_hops : List (ℕ × ℕ) → List (ℕ × ℕ) → List (ℕ × ℕ)
add_hops hops [] = hops
add_hops hops (h ∷ hs) = add_hops (if hops_contain hops h then hops else hops ++ (h ∷ [])) hs

unfoldable pub hops_eq : List (ℕ × ℕ) → List (ℕ × ℕ) → Bool
hops_eq [] [] = true
hops_eq (g ∷ gs) (h ∷ hs) = hop_eq g h && hops_eq gs hs
hops_eq gs hs = false

-- The derived `==`.
abbrev pub value_eq : RouteValue → RouteValue → Bool
value_eq a b = hops_eq a.next_hops b.next_hops && a.cost == b.cost

abbrev pub merge_value : RouteValue → RouteValue → RouteValue
merge_value e val =
    if ltb val.cost e.cost
    then val
    else (if val.cost == e.cost
        then record { next_hops = add_hops e.next_hops val.next_hops; cost = e.cost }
        else e)

abbrev pub entry_of : Ospfv3Route → RouteKey × RouteValue
entry_of route = (
  record { prefix = route.prefix; prefix_len = route.prefix_len },
  record { next_hops = route.next_hops; cost = route.cost },
)

-- `OspfRibV3::apply_routes`
unfoldable pub update_v3 : OspfRibV3 → List Ospfv3Route → OspfRibV3 × ℕ × ℕ
update_v3 rib new_routes =
    let r = apply_routes merge_value value_eq rib.installed (map entry_of new_routes) in
    (record { installed = r.0 }, r.1, r.2)

abbrev pub route_count : OspfRibV3 → ℕ
route_count rib = length rib.installed

abbrev pub clear : OspfRibV3 → OspfRibV3
clear rib = record { installed = [] }
