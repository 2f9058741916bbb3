-- ===== src/Spf/Tree/Keeps.antt =====
-- What the whole loop keeps of the costs and the next hops that it notes.
use ospfd.Common.{
  ℕ, zero, suc, ◌≡◌, ◌≢◌, refl, sym, ◌∙◌, arith, Option, some, List, [], ◌∷◌, inl, inr, In,
  if◌then◌else◌, ◌==◌, Bool-cases, Ipv4Addr, ok,
}
use ospfd.Packet.Lsa.Body.{
  RouterLink, RouterLinkType, point_to_point, transit_network, stub_network, virtual_link,
}
use ospfd.Spf.Table.{get, put, contains}
use ospfd.Spf.Tree.{
  NextHop, SpfNode, Inputs, Tree, new_cost_better, put_some, relax, neighbor_hop, address_or,
  index_or_zero, point_to_point_hop, attached_hop, relax_attached, relax_link, relax_links,
  attached_of, extract, visit, search_tree,
}
use mathlib.Core.Path.{subst}
use ospfd.Spf.Tree.Walks.{LinkOf, Edge, direct, across}

-- The next hop that may be noted for `v` when the links of `u` are gone through.
pub data Choice (i : Inputs) (hops : List (Ipv4Addr × NextHop)) (u v : Ipv4Addr)
    : Option NextHop → Type 0 where
  own_direct :
      (l : RouterLink) (nh : Option NextHop)
      → u ≡ i.my_router_id
      → LinkOf i u l
      → l.link_type ≡ point_to_point
      → l.link_id ≡ v
      → neighbor_hop (get v i.neighbor_map) ≡ nh
      → Choice i hops u v nh
  own_across :
      (l : RouterLink) (nh : NextHop)
      → u ≡ i.my_router_id
      → LinkOf i u l
      → l.link_type ≡ transit_network
      → In v (attached_of (get l.link_id i.network_lsas))
      → address_or (get v i.neighbor_map) (i.fallback v l.link_id) v ≡ nh.address
      → index_or_zero (get l.link_data i.iface_by_addr) ≡ nh.sw_if_index
      → Choice i hops u v (some nh)
  onward :
      (nh : Option NextHop) (w : ℕ)
      → u ≢ i.my_router_id
      → Edge i u v w
      → get u hops ≡ nh
      → Choice i hops u v nh

module _ (i : Inputs) (P : List (Ipv4Addr × ℕ) → List (Ipv4Addr × NextHop) → Type 0)
    (keep : (dist : List (Ipv4Addr × ℕ)) (hops : List (Ipv4Addr × NextHop)) (u v : Ipv4Addr) (c : ℕ)
        (nh : Option NextHop)
      → Choice i hops u v nh
      → P dist hops
      → P (put v c dist) (put_some v nh hops)) where
  abbrev Holds : Tree → Type 0
  Holds t = P t.dist t.next_hops

  relax-Holds :
      (t : Tree) (u v : Ipv4Addr) (c : ℕ) (nh : Option NextHop)
      → Choice i t.next_hops u v nh
      → Holds t
      → Holds (relax t v c nh)
  unfolding relax
  relax-Holds t u v c nh h p = elim (Bool-cases (new_cost_better t.dist v c)) [
    | inl better ↦ rw better (keep t.dist t.next_hops u v c nh h p)
    | inr not_better ↦ rw not_better p
  ]

  direct-Choice :
      (t : Tree) (u : Ipv4Addr) (l : RouterLink)
      → LinkOf i u l
      → l.link_type ≡ point_to_point
      → Choice i t.next_hops u l.link_id (point_to_point_hop i t u l.link_id)
  unfolding point_to_point_hop
  direct-Choice t u l m e = elim (Bool-cases (u == i.my_router_id)) [
    | inl own ↦ rw own (own_direct l _ (ground arith) m e refl refl)
    | inr other ↦
        rw other (onward _ l.metric (ground arith) (direct l l.link_id l.metric m e refl refl) refl)
  ]

  attached-Choice :
      (t : Tree) (u v : Ipv4Addr) (l : RouterLink)
      → LinkOf i u l
      → l.link_type ≡ transit_network
      → In v (attached_of (get l.link_id i.network_lsas))
      → v ≢ u
      → Choice i t.next_hops u v (attached_hop i t u l v)
  unfolding attached_hop
  attached-Choice t u v l m e h n = elim (Bool-cases (u == i.my_router_id)) [
    | inl own ↦ rw own (own_across l _ (ground arith) m e h refl refl)
    | inr other ↦
        rw other (onward _ l.metric (ground arith) (across l v l.metric m e h n refl) refl)
  ]

  attached_one :
      (u : Ipv4Addr) (l : RouterLink) (c : ℕ) (id : Ipv4Addr) (t : Tree)
      → LinkOf i u l
      → l.link_type ≡ transit_network
      → In id (attached_of (get l.link_id i.network_lsas))
      → Holds t
      → Holds (if id == u then t else relax t id c (attached_hop i t u l id))
  attached_one u l c id t m e h p = elim (Bool-cases (id == u)) [
    | inl same ↦ rw same p
    | inr other ↦
        rw other (relax-Holds t u id c _ (attached-Choice t u id l m e h (ground arith)) p)
  ]

  attached-Holds :
      (u : Ipv4Addr) (l : RouterLink) (c : ℕ) (ids : List Ipv4Addr) (t : Tree)
      → LinkOf i u l
      → l.link_type ≡ transit_network
      → ((x : Ipv4Addr) → In x ids → In x (attached_of (get l.link_id i.network_lsas)))
      → Holds t
      → Holds (relax_attached i u l c ids t)
  unfolding relax_attached
  attached-Holds u l c [] t m e sub p = p
  attached-Holds u l c (id ∷ ids) t m e sub p =
      attached-Holds u l c ids _ m e (λ x h. sub x (inr h))
        (attached_one u l c id t m e (sub id (inl refl)) p)

  link-Holds :
      (k : RouterLinkType) (u : Ipv4Addr) (c : ℕ) (l : RouterLink) (t : Tree)
      → LinkOf i u l
      → l.link_type ≡ k
      → Holds t
      → Holds (relax_link k i u c l t)
  link-Holds point_to_point u c l t m e p =
      relax-Holds t u l.link_id _ _ (direct-Choice t u l m e) p
  link-Holds transit_network u c l t m e p = attached-Holds u l _ _ t m e (λ x h. h) p
  link-Holds stub_network u c l t m e p = p
  link-Holds virtual_link u c l t m e p = p

  links-Holds :
      (u : Ipv4Addr) (c : ℕ) (ls : List RouterLink) (t : Tree)
      → ((l : RouterLink) → In l ls → LinkOf i u l)
      → Holds t
      → Holds (relax_links i u c ls t)
  unfolding relax_links
  links-Holds u c [] t sub p = p
  links-Holds u c (l ∷ ls) t sub p =
      links-Holds u c ls _ (λ k h. sub k (inr h))
        (link-Holds l.link_type u c l t (sub l (inl refl)) refl p)

  visit-Holds : (n : SpfNode) (t : Tree) → Holds t → Holds (visit i n t)
  unfolding visit
  visit-Holds n t p = elim (Bool-cases (contains n.router_id t.visited)) [
    | inl old ↦ rw old p
    | inr fresh ↦ rw fresh (links-Holds n.router_id n.cost _ _ (λ l h. h) p)
  ]

  pub search_tree-Holds :
      (fuel : ℕ) (t last : Tree) (h : List SpfNode)
      → t.heap ≡ h
      → Holds t
      → search_tree fuel i t ≡ ok last
      → Holds last
  unfolding search_tree
  search_tree-Holds zero t last h e p q = cc
  search_tree-Holds (suc fuel) t last [] e p q =
      let r : search_tree (suc fuel) i t ≡ ok t = rw e in
      let same : ok t ≡ ok last = sym r ∙ q in let w : t ≡ last = cc in subst (λ x. Holds x) w p
  search_tree-Holds (suc fuel) t last (x ∷ xs) e p q =
      let n = (extract x xs).0 in
      let next = visit i n (record t { heap = (extract x xs).1 }) in
      let r : search_tree (suc fuel) i t ≡ search_tree fuel i next = rw e in
      search_tree-Holds fuel next last next.heap refl (visit-Holds n _ p) (sym r ∙ q)
