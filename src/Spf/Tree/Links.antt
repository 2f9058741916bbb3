-- ===== src/Spf/Tree/Links.antt =====
-- Going through the links of a node that was popped.
use ospfd.Common.{
  ℕ, ◌+◌, ◌%◌, ◌^◌, ◌≤◌, ◌<◌, ◌≡◌, ◌≢◌, refl, arith, Option, List, [], ◌∷◌, inl, inr, In, ◌==◌,
  if◌then◌else◌, Bool-cases, Ipv4Addr, ◌∙◌, ◌⊎◌,
}
use mathlib.Core.Path.{subst}
use native.Mathlib.Nat.{mod-eq_of_lt}
use ospfd.Packet.Lsa.Body.{
  RouterLink, RouterLinkType, point_to_point, transit_network, stub_network, virtual_link,
}
use ospfd.Spf.Table.{get}
use ospfd.Spf.Tree.{
  NextHop, Inputs, Tree, relax, relax_attached, relax_link, relax_links, attached_of, links_of,
  attached_hop, point_to_point_hop,
}
use ospfd.Spf.Tree.Walks.{LinkOf, Edge, direct, across}
use ospfd.Spf.Tree.Relaxed.{max, cost_to, cost_to-relax, Visiting, relax-Visiting, not_up}

relaxed_cost :
    (t : Tree) (v : Ipv4Addr) (c : ℕ) (nh : Option NextHop) → cost_to (relax t v c nh) v ≤ c
relaxed_cost t v c nh = ground (arith, cost_to-relax t v c nh v)

module _ (i : Inputs) (u : Ipv4Addr) (c b : ℕ)
    (small : (v : Ipv4Addr) (w : ℕ) → Edge i u v w → c + w ≤ b) (fits : b < max) where
  -- From `t` to `t'` the invariant was kept, and no cost went up.
  abbrev pub Keeps : Tree → Tree → Type 0
  Keeps t t' =
      Visiting i u c b t → Visiting i u c b t' × ((j : Ipv4Addr) → cost_to t' j ≤ cost_to t j)

  Keeps-trans : (t t' t'' : Tree) → Keeps t t' → Keeps t' t'' → Keeps t t''
  Keeps-trans t t' t'' h k s =
      let (s', le) = h s in let (s'', le') = k s' in (s'', λ j. omega (arith, le j, le' j))

  Keeps-same : (t : Tree) → Keeps t t
  Keeps-same t s = (s, λ j. omega arith)

  no_wrap : (v : Ipv4Addr) (w : ℕ) → Edge i u v w → (c + w) % 2 ^ 32 ≡ c + w
  no_wrap v w e = mod-eq_of_lt (omega (arith, small v w e))

  Edge-Keeps :
      (v : Ipv4Addr) (w : ℕ) (nh : Option NextHop) (t : Tree)
      → Edge i u v w
      → Keeps t (relax t v ((c + w) % 2 ^ 32) nh)
  Edge-Keeps v w nh t e s = rw (no_wrap v w e) (
    relax-Visiting i u c b t v w nh e (omega (arith, small v w e)) (small v w e) s,
    not_up i u c b t v w nh e (omega (arith, small v w e)) (small v w e) s,
  )

  Edge-reached :
      (v : Ipv4Addr) (w : ℕ) (nh : Option NextHop) (t : Tree)
      → Edge i u v w
      → cost_to (relax t v ((c + w) % 2 ^ 32) nh) v ≤ c + w
  Edge-reached v w nh t e = rw (no_wrap v w e) (relaxed_cost t v (c + w) nh)

  module _ (l : RouterLink) (m : LinkOf i u l) (kind : l.link_type ≡ transit_network) where
    abbrev Listed : Ipv4Addr → Type 0
    Listed x = In x (attached_of (get l.link_id i.network_lsas))

    attached_step :
        (id : Ipv4Addr) (t : Tree)
        → Listed id
        → Keeps t
            (if id == u then t else relax t id ((c + l.metric) % 2 ^ 32) (attached_hop i t u l id))
    attached_step id t h = elim (Bool-cases (id == u)) [
      | inl same ↦ rw same (Keeps-same t)
      | inr other ↦ rw other (
          Edge-Keeps id l.metric (attached_hop i t u l id) t
            (across l id l.metric m kind h (ground arith) refl))
    ]

    attached_first :
        (id : Ipv4Addr) (t : Tree)
        → Listed id
        → id ≢ u
        → cost_to
            (if id == u then t else relax t id ((c + l.metric) % 2 ^ 32) (attached_hop i t u l id))
            id
          ≤ c + l.metric
    attached_first id t h n = elim (Bool-cases (id == u)) [
      | inl same ↦ absurd (n (ground arith))
      | inr other ↦ rw other (
          Edge-reached id l.metric (attached_hop i t u l id) t
            (across l id l.metric m kind h n refl))
    ]

    attached-Keeps :
        (ids : List Ipv4Addr) (t : Tree)
        → ((x : Ipv4Addr) → In x ids → Listed x)
        → Keeps t (relax_attached i u l ((c + l.metric) % 2 ^ 32) ids t)
    unfolding relax_attached
    attached-Keeps [] t sub = Keeps-same t
    attached-Keeps (id ∷ ids) t sub =
        Keeps-trans t _ _ (attached_step id t (sub id (inl refl)))
          (attached-Keeps ids _ (λ x h. sub x (inr h)))

    attached_reached :
        (ids : List Ipv4Addr) (t : Tree)
        → ((x : Ipv4Addr) → In x ids → Listed x)
        → Visiting i u c b t
        → (x : Ipv4Addr) → In x ids
        → x ≢ u
        → cost_to (relax_attached i u l ((c + l.metric) % 2 ^ 32) ids t) x ≤ c + l.metric
    unfolding relax_attached
    attached_reached [] t sub s x h n = absurd h
    attached_reached (id ∷ ids) t sub s x (inl e) n =
        let (s', _) = attached_step id t (sub id (inl refl)) s in
        let (_, le) = attached-Keeps ids _ (λ x h. sub x (inr h)) s' in
        let first = attached_first id t (sub id (inl refl)) (λ p. n (e ∙ p)) in
        rw e (omega (arith, le id, first))
    attached_reached (id ∷ ids) t sub s x (inr h) n =
        let (s', _) = attached_step id t (sub id (inl refl)) s in
        attached_reached ids _ (λ x h. sub x (inr h)) s' x h n

  -- The link `l` leads to the router `x`.
  abbrev LeadsTo : RouterLink → Ipv4Addr → Type 0
  LeadsTo l x =
      ((l.link_type ≡ point_to_point) × (l.link_id ≡ x))
      ⊎ ((l.link_type ≡ transit_network)
          × In x (attached_of (get l.link_id i.network_lsas))
          × (x ≢ u))

  link-Keeps :
      (k : RouterLinkType) (l : RouterLink) (t : Tree)
      → LinkOf i u l
      → l.link_type ≡ k
      → Keeps t (relax_link k i u c l t)
  link-Keeps point_to_point l t m e =
      Edge-Keeps l.link_id l.metric (point_to_point_hop i t u l.link_id) t
        (direct l l.link_id l.metric m e refl refl)
  link-Keeps transit_network l t m e = attached-Keeps l m e _ t (λ x h. h)
  link-Keeps stub_network l t m e = Keeps-same t
  link-Keeps virtual_link l t m e = Keeps-same t

  link_reached :
      (k : RouterLinkType) (l : RouterLink) (t : Tree) (x : Ipv4Addr)
      → LinkOf i u l
      → l.link_type ≡ k
      → Visiting i u c b t
      → LeadsTo l x
      → cost_to (relax_link k i u c l t) x ≤ c + l.metric
  link_reached point_to_point l t x m e s (inl (_, p)) =
      subst (λ y. cost_to (relax_link point_to_point i u c l t) y ≤ c + l.metric) p
        (Edge-reached l.link_id l.metric (point_to_point_hop i t u l.link_id) t
          (direct l l.link_id l.metric m e refl refl))
  link_reached transit_network l t x m e s (inr (_, h, n)) =
      attached_reached l m e _ t (λ y k. k) s x h n
  link_reached point_to_point l t x m e s (inr (q, _, _)) = absurd (cc)
  link_reached transit_network l t x m e s (inl (q, _)) = absurd (cc)
  link_reached stub_network l t x m e s (inl (q, _)) = absurd (cc)
  link_reached stub_network l t x m e s (inr (q, _, _)) = absurd (cc)
  link_reached virtual_link l t x m e s (inl (q, _)) = absurd (cc)
  link_reached virtual_link l t x m e s (inr (q, _, _)) = absurd (cc)

  links-Keeps :
      (ls : List RouterLink) (t : Tree)
      → ((l : RouterLink) → In l ls → LinkOf i u l)
      → Keeps t (relax_links i u c ls t)
  unfolding relax_links
  links-Keeps [] t sub = Keeps-same t
  links-Keeps (l ∷ ls) t sub =
      Keeps-trans t _ _ (link-Keeps l.link_type l t (sub l (inl refl)) refl)
        (links-Keeps ls _ (λ k h. sub k (inr h)))

  links_reached :
      (ls : List RouterLink) (t : Tree)
      → ((l : RouterLink) → In l ls → LinkOf i u l)
      → Visiting i u c b t
      → (l : RouterLink) (x : Ipv4Addr) → In l ls
      → LeadsTo l x
      → cost_to (relax_links i u c ls t) x ≤ c + l.metric
  unfolding relax_links
  links_reached [] t sub s l x h k = absurd h
  links_reached (m ∷ ls) t sub s l x (inl e) k =
      let (s', _) = link-Keeps m.link_type m t (sub m (inl refl)) refl s in
      let (_, le) = links-Keeps ls _ (λ k h. sub k (inr h)) s' in
      let first =
        link_reached m.link_type m t x (sub m (inl refl)) refl s (subst (λ y. LeadsTo y x) e k) in
      rw e (omega (arith, le x, first))
  links_reached (m ∷ ls) t sub s l x (inr h) k =
      let (s', _) = link-Keeps m.link_type m t (sub m (inl refl)) refl s in
      links_reached ls _ (λ k h. sub k (inr h)) s' l x h k

  -- After all links of `u` were gone through, each of its edges is made good.
  pub edges_closed :
      (t : Tree)
      → Visiting i u c b t
      → (x : Ipv4Addr) (w : ℕ) → Edge i u x w
      → cost_to (relax_links i u c (links_of (get u i.router_lsas)) t) x ≤ c + w
  edges_closed t s x w (direct l _ _ m e p q) =
      rw (← q) (links_reached _ t (λ k h. h) s l x m (inl (e, p)))
  edges_closed t s x w (across l _ _ m e h n q) =
      rw (← q) (links_reached _ t (λ k h. h) s l x m (inr (e, h, n)))

  pub links_of-Keeps : (t : Tree) → Keeps t (relax_links i u c (links_of (get u i.router_lsas)) t)
  links_of-Keeps t = links-Keeps _ t (λ l h. h)
