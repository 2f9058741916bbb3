-- ===== src/Spf/Routes/Beyond.antt =====
-- The inter-area and external routes: along the paths to the routers that advertise them.
use ospfd.Common.{◌⊎◌, ℕ, ◌≡◌, refl, arith, true, false, Option, none, some, List, In, Ipv4Addr}
use ospfd.Packet.Lsa.Header.{LsaKey, LsaType, summary_network, as_external, to_u8}
use ospfd.Packet.Lsa.Body.{LsaBody, SummaryLsa, AsExternalLsa}
use ospfd.Packet.Lsa.Codec.{Lsa}
use ospfd.Spf.Table.{get}
use ospfd.Spf.Tree.{NextHop}
use ospfd.Spf.Routes.Intra.{filter_map-In, In-filter_map}
use ospfd.Spf.Routes.{
  SpfRoute, mask_to_prefix_len, apply_mask, saturating_add, inter_area_route, inter_area_at,
  summary_route, calculate_inter_area_routes, external_route, external_at, as_external_route,
  calculate_external_routes, external1, external2, inter,
}

-- The route that a Summary-LSA or an AS-External-LSA is to give, over a path to its router.
pub record Along (paths : List (Ipv4Addr × (ℕ × NextHop))) (lsa : Lsa) (mask c : ℕ) (r : SpfRoute)
    : Type 0 where
  pub nh : NextHop
  pub path : get lsa.header.advertising_router paths ≡ some (c, nh)
  pub prefix : r.prefix ≡ apply_mask lsa.header.link_state_id mask
  pub prefix_len : r.prefix_len ≡ mask_to_prefix_len mask
  pub next_hop : r.next_hop ≡ nh.address
  pub sw_if_index : r.sw_if_index ≡ nh.sw_if_index

is_kind : (t : LsaType) → to_u8 t ≡ 3 → t ≡ summary_network
is_kind t h = ground arith

is_external : (t : LsaType) → to_u8 t ≡ 5 → t ≡ as_external
is_external t h = ground arith

module _ (paths : List (Ipv4Addr × (ℕ × NextHop))) (r : SpfRoute) where
  summary_facts :
      (l : Lsa) (o : Option (ℕ × NextHop)) (b : LsaBody)
      → get l.header.advertising_router paths ≡ o
      → l.body ≡ b
      → inter_area_at l o b ≡ some r
      → (s : SummaryLsa) × (c : ℕ) × (l.body ≡ LsaBody.summary s)
        × Along paths l s.network_mask c r
        × (r.cost ≡ saturating_add c s.metric)
        × (r.kind ≡ inter)
  summary_facts l (some (c, nh)) (LsaBody.summary s) g q e = (
    s,
    c,
    q,
    record {
      nh = nh;
      path = g;
      prefix = ground arith;
      prefix_len = ground arith;
      next_hop = ground arith;
      sw_if_index = ground arith;
    },
    ground arith,
    ground arith,
  )
  summary_facts l none b g q e = cc
  summary_facts l (some _) (LsaBody.router _) g q e = cc
  summary_facts l (some _) (LsaBody.network _) g q e = cc
  summary_facts l (some _) (LsaBody.as_external _) g q e = cc
  summary_facts l (some _) (LsaBody.opaque _) g q e = cc

  external_facts :
      (l : Lsa) (o : Option (ℕ × NextHop)) (b : LsaBody)
      → get l.header.advertising_router paths ≡ o
      → l.body ≡ b
      → external_at l o b ≡ some r
      → (x : AsExternalLsa) × (c : ℕ) × (l.body ≡ LsaBody.as_external x)
        × Along paths l x.network_mask c r
        × (((x.metric_type_2 ≡ true) × (r.cost ≡ x.metric) × (r.kind ≡ external2))
            ⊎ ((x.metric_type_2 ≡ false)
                × (r.cost ≡ saturating_add c x.metric)
                × (r.kind ≡ external1)))
  external_facts l (some (c, nh)) (LsaBody.as_external x) g q e = (
    x,
    c,
    q,
    record {
      nh = nh;
      path = g;
      prefix = ground arith;
      prefix_len = ground arith;
      next_hop = ground arith;
      sw_if_index = ground arith;
    },
    ground arith,
  )
  external_facts l none b g q e = cc
  external_facts l (some _) (LsaBody.router _) g q e = cc
  external_facts l (some _) (LsaBody.network _) g q e = cc
  external_facts l (some _) (LsaBody.summary _) g q e = cc
  external_facts l (some _) (LsaBody.opaque _) g q e = cc

-- The routes are exactly those of the Summary-LSAs for networks whose router has a path: each is
-- along that path, and costs the path's cost plus the metric, at most 2^32 - 1.
pub calculate_inter_area_routes_lem :
    (lsdb : List (LsaKey × Lsa)) (paths : List (Ipv4Addr × (ℕ × NextHop)))
    → ((r : SpfRoute)
        → In r (calculate_inter_area_routes lsdb paths)
        → (k : LsaKey) × (l : Lsa) × (s : SummaryLsa) × (c : ℕ) × In (k, l) lsdb
          × (k.ls_type ≡ summary_network)
          × (l.body ≡ LsaBody.summary s)
          × Along paths l s.network_mask c r
          × (r.cost ≡ saturating_add c s.metric)
          × (r.kind ≡ inter))
      × ((k : LsaKey) (l : Lsa) (s : SummaryLsa) (c : ℕ) (nh : NextHop)
          → In (k, l) lsdb
          → k.ls_type ≡ summary_network
          → l.body ≡ LsaBody.summary s
          → get l.header.advertising_router paths ≡ some (c, nh)
          → (r : SpfRoute) × In r (calculate_inter_area_routes lsdb paths)
            × Along paths l s.network_mask c r)
unfolding calculate_inter_area_routes inter_area_route
calculate_inter_area_routes_lem lsdb paths = (
  λ r m.
      let (x, i, e) = filter_map-In (inter_area_route paths) r lsdb m in
      let kind : to_u8 x.0.ls_type ≡ 3 = ground arith in
      let made : inter_area_at (x.1) (get x.1.header.advertising_router paths) (x.1.body) ≡ some r =
        ground arith in
      let (s, c, q, a, cost, k) = summary_facts paths r x.1 _ _ refl refl made in
      (x.0, x.1, s, c, i, is_kind x.0.ls_type kind, q, a, cost, k),
  λ k l s c nh m t b g.
      let r : SpfRoute = summary_route l s c nh in
      let made : inter_area_route paths (k, l) ≡ some r = ground arith in
      (
        r,
        In-filter_map (inter_area_route paths) (k, l) r lsdb m made,
        record {
          nh = nh;
          path = g;
          prefix = refl;
          prefix_len = refl;
          next_hop = refl;
          sw_if_index = refl;
        },
      ),
)

-- The routes are exactly those of the AS-External-LSAs whose router has a path: each is along that
-- path, and costs the metric alone for type 2, and the path's cost plus the metric for type 1.
pub calculate_external_routes_lem :
    (lsdb : List (LsaKey × Lsa)) (paths : List (Ipv4Addr × (ℕ × NextHop)))
    → ((r : SpfRoute)
        → In r (calculate_external_routes lsdb paths)
        → (k : LsaKey) × (l : Lsa) × (x : AsExternalLsa) × (c : ℕ) × In (k, l) lsdb
          × (k.ls_type ≡ as_external)
          × (l.body ≡ LsaBody.as_external x)
          × Along paths l x.network_mask c r
          × (((x.metric_type_2 ≡ true) × (r.cost ≡ x.metric) × (r.kind ≡ external2))
              ⊎ ((x.metric_type_2 ≡ false)
                  × (r.cost ≡ saturating_add c x.metric)
                  × (r.kind ≡ external1))))
      × ((k : LsaKey) (l : Lsa) (x : AsExternalLsa) (c : ℕ) (nh : NextHop)
          → In (k, l) lsdb
          → k.ls_type ≡ as_external
          → l.body ≡ LsaBody.as_external x
          → get l.header.advertising_router paths ≡ some (c, nh)
          → (r : SpfRoute) × In r (calculate_external_routes lsdb paths)
            × Along paths l x.network_mask c r)
unfolding calculate_external_routes external_route
calculate_external_routes_lem lsdb paths = (
  λ r m.
      let (x, i, e) = filter_map-In (external_route paths) r lsdb m in
      let kind : to_u8 x.0.ls_type ≡ 5 = ground arith in
      let made : external_at (x.1) (get x.1.header.advertising_router paths) (x.1.body) ≡ some r =
        ground arith in
      let (b, c, q, a, cost) = external_facts paths r x.1 _ _ refl refl made in
      (x.0, x.1, b, c, i, is_external x.0.ls_type kind, q, a, cost),
  λ k l x c nh m t b g.
      let r : SpfRoute = as_external_route l x c nh in
      let made : external_route paths (k, l) ≡ some r = ground arith in
      (
        r,
        In-filter_map (external_route paths) (k, l) r lsdb m made,
        record {
          nh = nh;
          path = g;
          prefix = refl;
          prefix_len = refl;
          next_hop = refl;
          sw_if_index = refl;
        },
      ),
)
