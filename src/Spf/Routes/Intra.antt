-- ===== src/Spf/Routes/Intra.antt =====
-- The intra-area routes: what `calculate_spf` gives, in terms of the distances in the graph.
use ospfd.Common.{
  ℕ, ◌+◌, ◌%◌, ◌^◌, ◌≤◌, ◌≡◌, ◌≢◌, ◌⊎◌, refl, sym, ap, arith, Option, none, some, List, [], ◌∷◌,
  inl, inr, In, In-append, append-In, length, Ipv4Addr, ok, ◌∙◌,
}
use mathlib.Core.Path.{subst}
use mathlib.Core.Logic.{◌↔◌}
use ospfd.Packet.Lsa.Header.{LsaKey}
use ospfd.Packet.Lsa.Body.{RouterLink, stub_network, NetworkLsa, LsaBody}
use ospfd.Packet.Lsa.Codec.{Lsa}
use ospfd.Spf.Table.{get, get-In, In-get, Distinct}
use ospfd.Spf.Tree.{SpfInterface, SpfNeighbor, Inputs, Tree, links_of}
use ospfd.Spf.Tree.Walks.{LinkOf, IsDistance}
use ospfd.Spf.Tree.Round.{FitMetrics}
use ospfd.Spf.Tree.Distances.{shortest_paths-IsDistance}
use ospfd.Spf.Tree.Hops.{dist-Distinct}
use ospfd.Spf.Routes.{
  SpfRoute, intra, filter_map, mask_to_prefix_len, apply_mask, stub_route, stub_link_route,
  stub_routes, network_route, network_route_at, routes_of, calculate_spf, inputs,
  find_router_iface_on_network,
}

module _ {A B : Type 0} (f : A → Option B) where
  filter_step :
      (y : B) (x : A) (xs : List A) (rest : List B) (o : Option B)
      → f x ≡ o
      → (In y rest → (z : A) × In z xs × (f z ≡ some y))
      → In y (elim o [ none ↦ rest | some z ↦ z ∷ rest ])
      → (z : A) × In z (x ∷ xs) × (f z ≡ some y)
  filter_step y x xs rest none e ih m = let (z, i, q) = ih m in (z, inr i, q)
  filter_step y x xs rest (some z) e ih (inl p) = (x, inl refl, e ∙ ap some (sym p))
  filter_step y x xs rest (some z) e ih (inr m) = let (z, i, q) = ih m in (z, inr i, q)

  -- What `filter_map` keeps is what the function makes of some element, and conversely.
  pub filter_map-In :
      (y : B) (xs : List A) → In y (filter_map f xs) → (x : A) × In x xs × (f x ≡ some y)
  filter_map-In y [] m = absurd m
  filter_map-In y (x ∷ xs) m =
      filter_step y x xs (filter_map f xs) (f x) refl (filter_map-In y xs) m

  filter_keep :
      (y : B) (rest : List B) (o : Option B)
      → In y rest
      → In y (elim o [ none ↦ rest | some z ↦ z ∷ rest ])
  filter_keep y rest none m = m
  filter_keep y rest (some z) m = inr m

  filter_here :
      (y : B) (rest : List B) (o : Option B)
      → o ≡ some y
      → In y (elim o [ none ↦ rest | some z ↦ z ∷ rest ])
  filter_here y rest none e = cc
  filter_here y rest (some z) e = let q : y ≡ z = cc in inl q

  pub In-filter_map :
      (x : A) (y : B) (xs : List A) → In x xs → f x ≡ some y → In y (filter_map f xs)
  In-filter_map x y [] m e = absurd m
  In-filter_map x y (z ∷ xs) (inl p) e = filter_here y (filter_map f xs) (f z) (sym (ap f p) ∙ e)
  In-filter_map x y (z ∷ xs) (inr m) e =
      filter_keep y (filter_map f xs) (f z) (In-filter_map x y xs m e)

module _ (i : Inputs) (t : Tree) where
  stub_routes-In :
      (r : SpfRoute) (dist : List (Ipv4Addr × ℕ))
      → In r (stub_routes i t dist)
      → (v : Ipv4Addr) × (d : ℕ) × (l : RouterLink) × In (v, d) dist
        × LinkOf i v l
        × (stub_route i t v d l ≡ some r)
  unfolding stub_routes
  stub_routes-In r [] m = absurd m
  stub_routes-In r ((v, d) ∷ dist) m =
      elim (append-In r (filter_map (stub_route i t v d) (links_of (get v i.router_lsas)))
        (stub_routes i t dist) m) [
          | inl here ↦
              let (l, k, e) = filter_map-In (stub_route i t v d) r _ here in
              (v, d, l, inl refl, k, e)
          | inr later ↦
              let (w, c, l, j, k, e) = stub_routes-In r dist later in (w, c, l, inr j, k, e)
        ]

  In-stub_routes :
      (r : SpfRoute) (v : Ipv4Addr) (d : ℕ) (l : RouterLink) (dist : List (Ipv4Addr × ℕ))
      → In (v, d) dist
      → LinkOf i v l
      → stub_route i t v d l ≡ some r
      → In r (stub_routes i t dist)
  unfolding stub_routes
  In-stub_routes r v d l [] m k e = absurd m
  In-stub_routes r v d l ((w, c) ∷ dist) (inl p) k e =
      let f : In r (filter_map (stub_route i t v d) (links_of (get v i.router_lsas))) =
        In-filter_map (stub_route i t v d) l r _ k e in
      let q : v ≡ w = ap (λ (x : Ipv4Addr × ℕ). x.0) p in
      let q' : d ≡ c = ap (λ (x : Ipv4Addr × ℕ). x.1) p in
      In-append r _ (stub_routes i t dist) (
        inl (
          subst
            (λ (x : Ipv4Addr × ℕ).
              In r (filter_map (stub_route i t x.0 x.1) (links_of (get (x.0) i.router_lsas))))
            p f))
  In-stub_routes r v d l ((w, c) ∷ dist) (inr m) k e =
      In-append r (filter_map (stub_route i t w c) (links_of (get w i.router_lsas)))
        (stub_routes i t dist) (inr (In-stub_routes r v d l dist m k e))

-- The route that the stub link `l` of the router `v` is to give: not a router of our own, at the
-- distance to the router plus the link's metric.
pub record OfStub (i : Inputs) (v : Ipv4Addr) (d : ℕ) (l : RouterLink) (r : SpfRoute) : Type 0 where
  pub distance : IsDistance i v d
  pub link : LinkOf i v l
  pub stub : l.link_type ≡ stub_network
  pub not_ours : v ≢ i.my_router_id
  pub prefix : r.prefix ≡ l.link_id
  pub prefix_len : r.prefix_len ≡ mask_to_prefix_len l.link_data
  pub cost : r.cost ≡ (d + l.metric) % 2 ^ 32
  pub kind : r.kind ≡ intra

-- The route that a Network-LSA is to give: at the distance to its router, for its masked address.
pub record OfNetwork (i : Inputs) (a : Ipv4Addr) (lsa : Lsa) (n : NetworkLsa) (r : SpfRoute)
    : Type 0 where
  pub listed : In (a, lsa) i.network_lsas
  pub body : lsa.body ≡ LsaBody.network n
  pub distance : IsDistance i lsa.header.advertising_router r.cost
  pub prefix : r.prefix ≡ apply_mask a n.network_mask
  pub prefix_len : r.prefix_len ≡ mask_to_prefix_len n.network_mask
  pub kind : r.kind ≡ intra

module _ (i : Inputs) (t : Tree) (d : Distinct t.dist)
    (exact : (v : Ipv4Addr) (c : ℕ) → (get v t.dist ≡ some c) ↔ IsDistance i v c) where
  stub_facts :
      (v : Ipv4Addr) (c : ℕ) (l : RouterLink) (r : SpfRoute)
      → In (v, c) t.dist
      → LinkOf i v l
      → stub_route i t v c l ≡ some r
      → OfStub i v c l r
  unfolding stub_route
  stub_facts v c l r m k e = record {
    distance = (exact v c).0 (get-In v c t.dist d m);
    link = k;
    stub = ground arith;
    not_ours = ground arith;
    prefix = ground arith;
    prefix_len = ground arith;
    cost = ground arith;
    kind = ground arith;
  }

  network_facts_at :
      (a : Ipv4Addr) (lsa : Lsa) (r : SpfRoute) (o : Option ℕ) (b : LsaBody)
      → In (a, lsa) i.network_lsas
      → get lsa.header.advertising_router t.dist ≡ o
      → lsa.body ≡ b
      → network_route_at i t a lsa o b ≡ some r
      → (n : NetworkLsa) × OfNetwork i a lsa n r
  network_facts_at a lsa r (some c) (LsaBody.network n) m g q e =
      let k : r.cost ≡ c = ground arith in
      (
        n,
        record {
          listed = m;
          body = q;
          distance = rw k ((exact lsa.header.advertising_router c).0 g);
          prefix = ground arith;
          prefix_len = ground arith;
          kind = ground arith;
        },
      )
  network_facts_at a lsa r none b m g q e = cc
  network_facts_at a lsa r (some c) (LsaBody.router _) m g q e = cc
  network_facts_at a lsa r (some c) (LsaBody.summary _) m g q e = cc
  network_facts_at a lsa r (some c) (LsaBody.as_external _) m g q e = cc
  network_facts_at a lsa r (some c) (LsaBody.opaque _) m g q e = cc

  stub_made :
      (v : Ipv4Addr) (c : ℕ) (l : RouterLink)
      → l.link_type ≡ stub_network
      → v ≢ i.my_router_id
      → (r : SpfRoute) × (stub_route i t v c l ≡ some r)
  unfolding stub_route
  stub_made v c l s o = (stub_link_route t v c l, ground arith)

  -- Each route stems from a stub link or a Network-LSA.
  route_facts :
      (r : SpfRoute)
      → In r (routes_of i t)
      → ((v : Ipv4Addr) × (c : ℕ) × (l : RouterLink) × OfStub i v c l r)
        ⊎ ((a : Ipv4Addr) × (lsa : Lsa) × (n : NetworkLsa) × OfNetwork i a lsa n r)
  unfolding routes_of network_route
  route_facts r m = elim (append-In r (stub_routes i t t.dist) _ m) [
    | inl s ↦
        let (v, c, l, k, q, e) = stub_routes-In i t r t.dist s in
        inl (v, c, l, stub_facts v c l r k q e)
    | inr n ↦
        let (x, k, e) = filter_map-In (network_route i t) r i.network_lsas n in
        let (body, f) = network_facts_at x.0 x.1 r _ _ k refl refl e in inr (x.0, x.1, body, f)
  ]

  -- Each stub link of a router that is not ourselves and that can be reached gives a route.
  stub_covered :
      (v : Ipv4Addr) (c : ℕ) (l : RouterLink)
      → IsDistance i v c
      → LinkOf i v l
      → l.link_type ≡ stub_network
      → v ≢ i.my_router_id
      → (r : SpfRoute) × In r (routes_of i t) × OfStub i v c l r
  unfolding routes_of
  stub_covered v c l h k s o =
      let (r, e) = stub_made v c l s o in
      let m = In-get v c t.dist ((exact v c).1 h) in
      (
        r,
        In-append r (stub_routes i t t.dist) _ (inl (In-stub_routes i t r v c l t.dist m k e)),
        stub_facts v c l r m k e,
      )

-- For at most 65535 routers with 16-bit metrics `calculate_spf` returns routes. Each of them is that
-- of a stub link of a router other than ourselves, or that of a Network-LSA, and costs the distance
-- to the router, with the link's metric added for a stub link (in 32 bits); and each stub link of
-- a router other than ourselves that can be reached gives one.
pub calculate_spf_lem :
    (me : Ipv4Addr) (lsdb : List (LsaKey × Lsa)) (interfaces : List SpfInterface)
    (neighbors : List SpfNeighbor)
    → let i = inputs me lsdb interfaces neighbors find_router_iface_on_network in
      FitMetrics i.router_lsas
      → length i.router_lsas ≤ 65535
      → (routes : List SpfRoute) × (calculate_spf me lsdb interfaces neighbors ≡ ok routes)
        × ((r : SpfRoute)
            → In r routes
            → ((v : Ipv4Addr) × (c : ℕ) × (l : RouterLink) × OfStub i v c l r)
              ⊎ ((a : Ipv4Addr) × (lsa : Lsa) × (n : NetworkLsa) × OfNetwork i a lsa n r))
        × ((v : Ipv4Addr) (c : ℕ) (l : RouterLink)
            → IsDistance i v c
            → LinkOf i v l
            → l.link_type ≡ stub_network
            → v ≢ me
            → (r : SpfRoute) × In r routes × OfStub i v c l r)
unfolding calculate_spf inputs
calculate_spf_lem me lsdb interfaces neighbors fit few =
    let i = inputs me lsdb interfaces neighbors find_router_iface_on_network in
    let (t, returns, exact, _) = shortest_paths-IsDistance i fit few in
    let d = dist-Distinct i t returns in
    (routes_of i t, rw returns, route_facts i t d exact, stub_covered i t d exact)
