-- ===== src/Spf/Examples.antt =====
-- The shortest-path calculation at a small area: we are router 1, with links to routers 2 and 3, and
-- router 3 is nearer by way of router 2.
use ospfd.Common.{
  ℕ, ◌≤◌, ◌≡◌, ◌≢◌, ◌⊎◌, arith, true, false, none, some, List, [], ◌∷◌, In, Ipv4Addr, ok, length,
}
use mathlib.Core.Logic.{◌↔◌}
use ospfd.Packet.Lsa.Header.{LsaKey, LsaType, LsaHeader}
use ospfd.Packet.Lsa.Body.{
  RouterLink, point_to_point, stub_network, NetworkLsa, SummaryLsa, AsExternalLsa, LsaBody,
}
use ospfd.Packet.Lsa.Codec.{Lsa}
use ospfd.Spf.Table.{get, put, collect}
use ospfd.Spf.Tree.{NextHop, SpfNeighbor, Inputs, Tree}
use ospfd.Spf.Tree.Walks.{LinkOf, Walk, IsDistance}
use ospfd.Spf.Tree.Fuel.{shortest_paths}
use ospfd.Spf.Tree.Round.{FitMetrics}
use ospfd.Spf.Tree.Distances.{shortest_paths-IsDistance}
use ospfd.Spf.Routes.{
  SpfRoute, router_entry, network_entry, inputs, no_fallback, find_router_iface_on_network,
  calculate_spf, calculate_inter_area_routes, calculate_external_routes, saturating_add, inter,
  external1, external2,
}
use ospfd.Spf.Routes.Intra.{OfStub, OfNetwork, calculate_spf_lem}
use ospfd.Spf.Routes.Beyond.{Along, calculate_inter_area_routes_lem, calculate_external_routes_lem}

abbrev to : Ipv4Addr → ℕ → RouterLink
to id metric = record {
  link_id = id;
  link_data = 0;
  link_type = point_to_point;
  num_tos = 0;
  metric = metric;
}

abbrev stub : Ipv4Addr → ℕ → RouterLink
stub net metric = record {
  link_id = net;
  link_data = 0xFFFFFF00;
  link_type = stub_network;
  num_tos = 0;
  metric = metric;
}

abbrev key_of : Ipv4Addr → LsaKey
key_of id = record { ls_type = LsaType.router; link_state_id = id; advertising_router = id }

abbrev area_lsa : Ipv4Addr → List RouterLink → Lsa
area_lsa id links = record {
  header = record {
    ls_age = 0;
    options = 2;
    ls_type = LsaType.router;
    link_state_id = id;
    advertising_router = id;
    ls_sequence_number = 0x80000001;
    ls_checksum = 0;
    length = 0;
  };
  body = LsaBody.router (record { flags = 0; links = links });
}

abbrev area : List (LsaKey × Lsa)
area =
    (key_of 1, area_lsa 1 (to 2 10 ∷ to 3 20 ∷ []))
    ∷ (key_of 2, area_lsa 2 (to 1 10 ∷ to 3 5 ∷ []))
    ∷ (key_of 3, area_lsa 3 (to 2 5 ∷ stub 0x0A010000 1 ∷ []))
    ∷ []

abbrev neighbors : List SpfNeighbor
neighbors =
    record { router_id = 2; address = 102; sw_if_index = 7 }
    ∷ record { router_id = 3; address = 103; sw_if_index = 8 }
    ∷ []

abbrev graph : Inputs
graph = inputs 1 area [] neighbors find_router_iface_on_network

fit_area : FitMetrics graph.router_lsas
unfolding inputs router_entry network_entry collect put get
fit_area = (
  (omega arith, (omega arith, tt)),
  ((omega arith, (omega arith, tt)), ((omega arith, (omega arith, tt)), tt)),
)

few_routers : length graph.router_lsas ≤ 65535
unfolding inputs router_entry network_entry collect put get
few_routers = omega arith

shortest_paths-IsDistance_example :
    (t : Tree) × (shortest_paths graph ≡ ok t)
    × ((v : Ipv4Addr) (d : ℕ) → (get v t.dist ≡ some d) ↔ IsDistance graph v d)
    × ((v : Ipv4Addr) (c : ℕ) → Walk graph v c → get v t.dist ≢ none)
shortest_paths-IsDistance_example = shortest_paths-IsDistance graph fit_area few_routers

abbrev by_two : NextHop
by_two = record { address = 102; sw_if_index = 7 }

abbrev found : Tree
found = record {
  dist = (1, 0) ∷ (2, 10) ∷ (3, 15) ∷ [];
  next_hops = (2, by_two) ∷ (3, by_two) ∷ [];
  visited = 3 ∷ 2 ∷ 1 ∷ [];
  heap = [];
}

calculate_spf_lem_example :
    (routes : List SpfRoute) × (calculate_spf 1 area [] neighbors ≡ ok routes)
    × ((r : SpfRoute)
        → In r routes
        → ((v : Ipv4Addr) × (c : ℕ) × (l : RouterLink) × OfStub graph v c l r)
          ⊎ ((a : Ipv4Addr) × (lsa : Lsa) × (n : NetworkLsa) × OfNetwork graph a lsa n r))
    × ((v : Ipv4Addr) (c : ℕ) (l : RouterLink)
        → IsDistance graph v c
        → LinkOf graph v l
        → l.link_type ≡ stub_network
        → v ≢ 1
        → (r : SpfRoute) × In r routes × OfStub graph v c l r)
calculate_spf_lem_example = calculate_spf_lem 1 area [] neighbors fit_area few_routers

abbrev plain : Inputs
plain = inputs 1 area [] neighbors no_fallback

abbrev summary_key : LsaKey
summary_key = record {
  ls_type = LsaType.summary_network;
  link_state_id = 0x0A020000;
  advertising_router = 3;
}

abbrev summary_header : LsaHeader
summary_header = record {
  ls_age = 0;
  options = 2;
  ls_type = LsaType.summary_network;
  link_state_id = 0x0A020000;
  advertising_router = 3;
  ls_sequence_number = 0x80000001;
  ls_checksum = 0;
  length = 0;
}

abbrev beyond_area : List (LsaKey × Lsa)
beyond_area =
    (
      summary_key,
      record {
        header = summary_header;
        body = LsaBody.summary (record { network_mask = 0xFFFF0000; metric = 4 });
      },
    )
    ∷ []

abbrev outside : List (LsaKey × Lsa)
outside =
    (
      record summary_key { ls_type = LsaType.as_external },
      record {
        header = record summary_header { ls_type = LsaType.as_external };
        body = LsaBody.as_external (record {
          network_mask = 0xFFFF0000;
          metric_type_2 = false;
          metric = 4;
          forwarding_address = 0;
          external_route_tag = 0;
        });
      },
    )
    ∷ []

abbrev paths : List (Ipv4Addr × (ℕ × NextHop))
paths = (3, (15, by_two)) ∷ []

calculate_inter_area_routes_lem_example :
    ((r : SpfRoute)
      → In r (calculate_inter_area_routes beyond_area paths)
      → (k : LsaKey) × (l : Lsa) × (s : SummaryLsa) × (c : ℕ) × In (k, l) beyond_area
        × (k.ls_type ≡ LsaType.summary_network)
        × (l.body ≡ LsaBody.summary s)
        × Along paths l s.network_mask c r
        × (r.cost ≡ saturating_add c s.metric)
        × (r.kind ≡ inter))
    × ((k : LsaKey) (l : Lsa) (s : SummaryLsa) (c : ℕ) (nh : NextHop)
        → In (k, l) beyond_area
        → k.ls_type ≡ LsaType.summary_network
        → l.body ≡ LsaBody.summary s
        → get l.header.advertising_router paths ≡ some (c, nh)
        → (r : SpfRoute) × In r (calculate_inter_area_routes beyond_area paths)
          × Along paths l s.network_mask c r)
calculate_inter_area_routes_lem_example = calculate_inter_area_routes_lem beyond_area paths

calculate_external_routes_lem_example :
    ((r : SpfRoute)
      → In r (calculate_external_routes outside paths)
      → (k : LsaKey) × (l : Lsa) × (x : AsExternalLsa) × (c : ℕ) × In (k, l) outside
        × (k.ls_type ≡ LsaType.as_external)
        × (l.body ≡ LsaBody.as_external x)
        × Along paths l x.network_mask c r
        × (((x.metric_type_2 ≡ true) × (r.cost ≡ x.metric) × (r.kind ≡ external2))
            ⊎ ((x.metric_type_2 ≡ false)
                × (r.cost ≡ saturating_add c x.metric)
                × (r.kind ≡ external1))))
    × ((k : LsaKey) (l : Lsa) (x : AsExternalLsa) (c : ℕ) (nh : NextHop)
        → In (k, l) outside
        → k.ls_type ≡ LsaType.as_external
        → l.body ≡ LsaBody.as_external x
        → get l.header.advertising_router paths ≡ some (c, nh)
        → (r : SpfRoute) × In r (calculate_external_routes outside paths)
          × Along paths l x.network_mask c r)
calculate_external_routes_lem_example = calculate_external_routes_lem outside paths
