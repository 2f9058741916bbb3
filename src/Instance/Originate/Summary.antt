-- ===== src/Instance/Originate/Summary.antt =====
-- Type 3 Summary-LSAs of an area border router: `originate_summary_lsas` (src/instance.rs), and
-- `run_spf`, which makes the same inputs of the calculation.
use ospfd.Common.{
  ℕ, Bool, false, not, ◌&&◌, ◌||◌, Option, none, some, List, [], ◌∷◌, ◌++◌, ◌==◌, if◌then◌else◌,
  Ipv4Addr, unspecified, Outcome, ok, ◌>>=◌,
}
use ospfd.Packet.Lsa.Header.{LsaType}
use ospfd.Packet.Lsa.Body.{LsaBody}
use ospfd.Packet.Lsa.Codec.{Lsa}
use ospfd.Neighbor.Machine.{Neighbor, is_two_way_or_better}
use ospfd.Interface.Machine.{OspfInterface}
use ospfd.Area.{Area, normal}
use ospfd.Lsdb.Store.{as_lsa_map}
use ospfd.Spf.Table.{get, put}
use ospfd.Spf.Tree.{SpfInterface, SpfNeighbor, NextHop}
use ospfd.Spf.Routes.{
  SpfRoute, apply_mask, calculate_spf, calculate_spf_with_paths, calculate_inter_area_routes,
  calculate_external_routes,
}
use ospfd.Instance.State.{OspfInstance, is_abr}
use ospfd.Instance.Originate.{is_down, is_empty, area_ids, install_own, one_lsa}
use ospfd.Instance.Originate.Masks.{prefix_len_to_mask}

abbrev is_of : Ipv4Addr → OspfInterface → Bool
is_of area_id i = not (is_down i) && i.area_id == area_id

unfoldable pub spf_interfaces : Ipv4Addr → List OspfInterface → List SpfInterface
spf_interfaces area_id [] = []
spf_interfaces area_id (i ∷ is) =
    let rest = spf_interfaces area_id is in
    if is_of area_id i
    then record { address = i.address; mask = i.mask; sw_if_index = i.sw_if_index; cost = i.cost }
      ∷ rest
    else rest

unfoldable pub spf_neighbors_on : ℕ → List (Ipv4Addr × Neighbor) → List SpfNeighbor
spf_neighbors_on sw_if_index [] = []
spf_neighbors_on sw_if_index ((id, n) ∷ ns) =
    let rest = spf_neighbors_on sw_if_index ns in
    if is_two_way_or_better n.state
    then record { router_id = n.router_id; address = n.address; sw_if_index = sw_if_index } ∷ rest
    else rest

unfoldable pub spf_neighbors : Ipv4Addr → List OspfInterface → List SpfNeighbor
spf_neighbors area_id [] = []
spf_neighbors area_id (i ∷ is) =
    let rest = spf_neighbors area_id is in
    if is_of area_id i then spf_neighbors_on i.sw_if_index i.neighbors ++ rest else rest

abbrev routes_in : OspfInstance → Ipv4Addr → ℕ → Option Area → Outcome (Option (List SpfRoute))
routes_in inst area_id now none = ok none
routes_in inst area_id now (some a) = do
  routes ←
      calculate_spf inst.router_id (as_lsa_map a.lsdb now) (spf_interfaces area_id inst.interfaces)
        (spf_neighbors area_id inst.interfaces)
  ok (some routes)

-- The intra-area routes of an area that we have an interface up in.
unfoldable pub area_routes : OspfInstance → Ipv4Addr → ℕ → Outcome (Option (List SpfRoute))
area_routes inst area_id now =
    if is_empty (spf_interfaces area_id inst.interfaces)
    then ok none
    else routes_in inst area_id now (get area_id inst.areas)

abbrev entry_for : Ipv4Addr → Option (List SpfRoute) → List (Ipv4Addr × List SpfRoute)
entry_for a none = []
entry_for a (some rs) = (a, rs) ∷ []

unfoldable pub source_routes :
    OspfInstance → List Ipv4Addr → ℕ → Outcome (List (Ipv4Addr × List SpfRoute))
source_routes inst [] now = ok []
source_routes inst (a ∷ as_) now = do
  r ← area_routes inst a now
  rest ← source_routes inst as_ now
  ok (entry_for a r ++ rest)

abbrev pub summary_body : Ipv4Addr → ℕ → LsaBody
summary_body mask metric = LsaBody.summary (record { network_mask = mask; metric = metric })

-- A Type 3 LSA installed in the database of an area.
abbrev pub summary_in :
    OspfInstance
    → Ipv4Addr
    → Area
    → Ipv4Addr
    → LsaBody
    → ℕ
    → Outcome (OspfInstance × List (Ipv4Addr × Lsa))
summary_in inst area_id a prefix body now = do
  p ← install_own a.lsdb inst.router_id LsaType.summary_network prefix body now
  ok (record inst { areas = put area_id (record a { lsdb = p.0 }) inst.areas }, one_lsa area_id p.1)

-- The default route into an area that is not normal.
abbrev pub default_at :
    OspfInstance → Ipv4Addr → ℕ → Option Area → Outcome (OspfInstance × List (Ipv4Addr × Lsa))
default_at inst area_id now none = ok (inst, [])
default_at inst area_id now (some a) = elim (a.area_type) [
  | normal ↦ ok (inst, [])
  | _ ↦ summary_in inst area_id a unspecified (summary_body unspecified a.default_cost) now
]

unfoldable pub originate_defaults :
    OspfInstance → List Ipv4Addr → ℕ → Outcome (OspfInstance × List (Ipv4Addr × Lsa))
originate_defaults inst [] now = ok (inst, [])
originate_defaults inst (a ∷ as_) now = do
  p ← default_at inst a now (get a inst.areas)
  q ← originate_defaults p.0 as_ now
  ok (q.0, p.1 ++ q.1)

unfoldable pub already_local : List OspfInterface → Ipv4Addr → Ipv4Addr → Bool
already_local [] area_id prefix = false
already_local (i ∷ is) area_id prefix =
    (i.area_id == area_id && apply_mask i.address i.mask == prefix)
    || already_local is area_id prefix

abbrev pub route_into :
    OspfInstance
    → Ipv4Addr
    → SpfRoute
    → ℕ
    → Option Area
    → Outcome (OspfInstance × List (Ipv4Addr × Lsa))
route_into inst dest r now none = ok (inst, [])
route_into inst dest r now (some a) =
    if already_local inst.interfaces dest r.prefix
    then ok (inst, [])
    else summary_in inst dest a r.prefix (summary_body (prefix_len_to_mask r.prefix_len) r.cost) now

unfoldable pub routes_into :
    OspfInstance → Ipv4Addr → List SpfRoute → ℕ → Outcome (OspfInstance × List (Ipv4Addr × Lsa))
routes_into inst dest [] now = ok (inst, [])
routes_into inst dest (r ∷ rs) now = do
  p ← route_into inst dest r now (get dest inst.areas)
  q ← routes_into p.0 dest rs now
  ok (q.0, p.1 ++ q.1)

-- The routes of one source area into each other area.
unfoldable pub routes_out :
    OspfInstance
    → Ipv4Addr
    → List SpfRoute
    → List Ipv4Addr
    → ℕ
    → Outcome (OspfInstance × List (Ipv4Addr × Lsa))
routes_out inst source routes [] now = ok (inst, [])
routes_out inst source routes (dest ∷ dests) now = do
  p ← (if source == dest then ok (inst, []) else routes_into inst dest routes now)
  q ← routes_out p.0 source routes dests now
  ok (q.0, p.1 ++ q.1)

unfoldable pub summarize :
    OspfInstance
    → List (Ipv4Addr × List SpfRoute)
    → ℕ
    → Outcome (OspfInstance × List (Ipv4Addr × Lsa))
summarize inst [] now = ok (inst, [])
summarize inst ((source, routes) ∷ rest) now = do
  p ← routes_out inst source routes (area_ids inst) now
  q ← summarize p.0 rest now
  ok (q.0, p.1 ++ q.1)

unfoldable pub originate_summary_lsas :
    OspfInstance → ℕ → Outcome (OspfInstance × List (Ipv4Addr × Lsa))
originate_summary_lsas inst now = if not (is_abr inst) then ok (inst, []) else do
  sources ← source_routes inst (area_ids inst) now
  p ← originate_defaults inst (area_ids inst) now
  q ← summarize p.0 sources now
  ok (q.0, p.1 ++ q.1)

abbrev pub spf_in :
    OspfInstance
    → Ipv4Addr
    → ℕ
    → Option Area
    → Outcome (List SpfRoute × List (Ipv4Addr × (ℕ × NextHop)))
spf_in inst area_id now none = ok ([], [])
spf_in inst area_id now (some a) =
    if is_empty (spf_interfaces area_id inst.interfaces) then ok ([], []) else do
      r ←
          calculate_spf_with_paths inst.router_id (as_lsa_map a.lsdb now)
            (spf_interfaces area_id inst.interfaces) (spf_neighbors area_id inst.interfaces)
      ok (r.0 ++ calculate_inter_area_routes (as_lsa_map a.lsdb now) r.1, r.1)

unfoldable pub spf_areas : OspfInstance → List Ipv4Addr → ℕ → Outcome (List SpfRoute)
spf_areas inst [] now = ok []
spf_areas inst (a ∷ as_) now = do
  r ← spf_in inst a now (get a inst.areas)
  rest ← spf_areas inst as_ now
  ok (r.0 ++ rest)

-- The paths to the routers of the backbone serve the external routes.
unfoldable pub run_spf : OspfInstance → ℕ → Outcome (OspfInstance × List SpfRoute)
run_spf inst now = do
  routes ← spf_areas inst (area_ids inst) now
  b ← spf_in inst unspecified now (get unspecified inst.areas)
  let ext = calculate_external_routes (as_lsa_map inst.as_external_lsdb now) b.1
  ok (record inst { spf_scheduled = none; spf_last_run = some now }, routes ++ ext)
