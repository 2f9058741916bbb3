-- ===== src/Spf/Tree/Fuel.antt =====
-- How many rounds the loop can take: every node pushed is popped, and each router's links are gone
-- through once.
use ospfd.Common.{
  ℕ, suc, ◌+◌, ◌∙◌, ◌≤◌, ◌<◌, ◌≡◌, refl, arith, false, Option, none, some, List, [], ◌∷◌, length,
  if◌then◌else◌, ◌==◌, Ipv4Addr, Bool-cases, inl, inr, Outcome,
}
use ospfd.Packet.Lsa.Body.{
  RouterLink, RouterLinkType, point_to_point, transit_network, stub_network, virtual_link,
}
use ospfd.Packet.Lsa.Codec.{Lsa}
use ospfd.Spf.Table.{get, contains}
use ospfd.Spf.Tree.{
  NextHop, Inputs, Tree, relax, new_cost_better, relax_attached, relax_link, relax_links, visit,
  search_tree, root, SpfNode, attached_of, links_of, attached_hop,
}
use ospfd.Spf.Tree.Pop.{Popped}

-- The sum of `f` over the entries whose routers are not visited.
unfoldable pub pending : (Lsa → ℕ) → List Ipv4Addr → List (Ipv4Addr × Lsa) → ℕ
pending f visited [] = 0
pending f visited ((k, l) ∷ m) = (if contains k visited then 0 else f l) + pending f visited m

pub pending_falls :
    (f : Lsa → ℕ) (u : Ipv4Addr) (visited : List Ipv4Addr) (m : List (Ipv4Addr × Lsa))
    → pending f (u ∷ visited) m ≤ pending f visited m
unfolding pending contains
pending_falls f u visited [] = omega arith
pending_falls f u visited ((k, l) ∷ m) = ground (arith, pending_falls f u visited m)

pub pending_pays :
    (f : Lsa → ℕ) (u : Ipv4Addr) (visited : List Ipv4Addr) (m : List (Ipv4Addr × Lsa)) (l : Lsa)
    → contains u visited ≡ false
    → get u m ≡ some l
    → f l + pending f (u ∷ visited) m ≤ pending f visited m
unfolding pending contains get
pending_pays f u visited [] l h e = cc
pending_pays f u visited ((k, n) ∷ m) l h e =
    ground (arith, pending_pays f u visited m l h, pending_falls f u visited m)

-- How many routers a link, or a list of links, can lead to.
abbrev link_degree : RouterLinkType → Inputs → RouterLink → ℕ
link_degree point_to_point i l = 1
link_degree transit_network i l = length (attached_of (get l.link_id i.network_lsas))
link_degree _ i l = 0

abbrev links_degree : Inputs → List RouterLink → ℕ
links_degree i [] = 0
links_degree i (l ∷ ls) = link_degree l.link_type i l + links_degree i ls

abbrev pub degree : Inputs → Lsa → ℕ
degree i l = links_degree i (links_of (some l))

-- From `t` to `t'` at most `k` nodes were pushed, and none was visited.
pub record Pushes (k : ℕ) (t t' : Tree) : Type 0 where
  pub grown : length t'.heap ≤ k + length t.heap
  pub same_visited : t'.visited ≡ t.visited

Pushes-trans : (j k : ℕ) (t t' t'' : Tree) → Pushes j t t' → Pushes k t' t'' → Pushes (j + k) t t''
Pushes-trans j k t t' t'' p q = record {
  grown = omega (arith, p.grown, q.grown);
  same_visited = q.same_visited ∙ p.same_visited;
}

relax-Pushes : (t : Tree) (v : Ipv4Addr) (c : ℕ) (nh : Option NextHop) → Pushes 1 t (relax t v c nh)
unfolding relax new_cost_better
relax-Pushes t v c nh = ground arith

attached-Pushes :
    (i : Inputs) (u : Ipv4Addr) (l : RouterLink) (c : ℕ) (ids : List Ipv4Addr) (t : Tree)
    → Pushes (length ids) t (relax_attached i u l c ids t)
unfolding relax_attached
attached-Pushes i u l c [] t = record { grown = omega arith; same_visited = refl }
attached-Pushes i u l c (id ∷ ids) t =
    let next = if id == u then t else relax t id c (attached_hop i t u l id) in
    let p = relax-Pushes t id c (attached_hop i t u l id) in
    let q = attached-Pushes i u l c ids next in
    record {
      grown = ground (arith, p.grown, q.grown);
      same_visited = ground (arith, p.same_visited, q.same_visited);
    }

link-Pushes :
    (k : RouterLinkType) (i : Inputs) (u : Ipv4Addr) (c : ℕ) (l : RouterLink) (t : Tree)
    → Pushes (link_degree k i l) t (relax_link k i u c l t)
link-Pushes point_to_point i u c l t = relax-Pushes t l.link_id _ _
link-Pushes transit_network i u c l t = attached-Pushes i u l _ _ t
link-Pushes stub_network i u c l t = record { grown = omega arith; same_visited = refl }
link-Pushes virtual_link i u c l t = record { grown = omega arith; same_visited = refl }

pub links-Pushes :
    (i : Inputs) (u : Ipv4Addr) (c : ℕ) (ls : List RouterLink) (t : Tree)
    → Pushes (links_degree i ls) t (relax_links i u c ls t)
unfolding relax_links
links-Pushes i u c [] t = record { grown = omega arith; same_visited = refl }
links-Pushes i u c (l ∷ ls) t =
    Pushes-trans _ _ t _ _ (link-Pushes l.link_type i u c l t) (links-Pushes i u c ls _)

-- What is left to do: the nodes in the heap, and those that unvisited routers may push.
abbrev pub measure : Inputs → Tree → ℕ
measure i t = length t.heap + pending (degree i) t.visited i.router_lsas

fresh_measure :
    (i : Inputs) (t : Tree) (n : SpfNode) (rest : List SpfNode) (o : Option Lsa)
    → get n.router_id i.router_lsas ≡ o
    → contains n.router_id t.visited ≡ false
    → links_degree i (links_of o) + pending (degree i) (n.router_id ∷ t.visited) i.router_lsas
      ≤ pending (degree i) t.visited i.router_lsas
fresh_measure i t n rest none h f =
    omega (arith, pending_falls (degree i) n.router_id t.visited i.router_lsas)
fresh_measure i t n rest (some l) h f =
    pending_pays (degree i) n.router_id t.visited i.router_lsas l f h

pub visit-measure :
    (i : Inputs) (t : Tree) (n : SpfNode) (rest : List SpfNode)
    → Popped t.heap n rest
    → measure i (visit i n (record t { heap = rest })) < measure i t
unfolding visit
visit-measure i t n rest p = elim (Bool-cases (contains n.router_id t.visited)) [
  | inl old ↦ rw old (omega (arith, p.one_less))
  | inr fresh ↦
      let links = links_of (get n.router_id i.router_lsas) in
      let entered : Tree = record t { heap = rest; visited = n.router_id ∷ t.visited } in
      let q = links-Pushes i n.router_id n.cost links entered in
      rw fresh (
        rw (q.same_visited) (
          omega (
            arith,
            p.one_less,
            q.grown,
            fresh_measure i t n rest (get n.router_id i.router_lsas) refl fresh,
          )))
]

-- The loop from the start, with rounds enough for it.
unfoldable pub shortest_paths : Inputs → Outcome Tree
shortest_paths i = search_tree (suc (measure i (root i))) i (root i)

pub pending-length : (m : List (Ipv4Addr × Lsa)) → pending (λ _. 1) [] m ≡ length m
unfolding pending contains
pending-length [] = refl
pending-length (e ∷ m) = omega (arith, pending-length m)
