-- ===== src/Spf/Tree/Round.antt =====
-- What one round of the loop keeps.
use ospfd.Common.{
  ℕ, ◌+◌, ◌-◌, ◌*◌, ◌≤◌, ◌<◌, ◌≡◌, ◌≢◌, refl, sym, ap, arith, ◌⊎◌, ◌||◌, true, false, Option, none,
  some, List, [], ◌∷◌, inl, inr, In, All, IsU16, Bool-cases, Ipv4Addr, ◌==◌,
}
use mathlib.Core.Path.{subst}
use ospfd.Packet.Lsa.Body.{RouterLink}
use ospfd.Packet.Lsa.Codec.{Lsa}
use ospfd.Spf.Table.{get, contains}
use ospfd.Spf.Tree.{SpfNode, Inputs, Tree, links_of, relax_links, visit}
use ospfd.Spf.Tree.Walks.{Edge, direct, across, Walk}
use ospfd.Spf.Tree.Pop.{Popped}
use ospfd.Spf.Tree.Relaxed.{max, cost_to, node, Visiting}
use ospfd.Spf.Tree.Links.{edges_closed, links_of-Keeps}
use ospfd.Spf.Tree.Fuel.{pending, pending_falls, pending_pays, links-Pushes}

-- The metrics are u16.
abbrev pub FitMetrics : List (Ipv4Addr × Lsa) → Type 0
FitMetrics m =
    All (λ (e : Ipv4Addr × Lsa). All (λ (l : RouterLink). IsU16 l.metric) (links_of (some e.1))) m

All-In : {A : Type 0} (P : A → Type 0) (xs : List A) (x : A) → All P xs → In x xs → P x
All-In P [] x h m = absurd m
All-In P (y ∷ ys) x h (inl e) = subst P (sym e) h.0
All-In P (y ∷ ys) x h (inr m) = All-In P ys x h.1 m

metrics_of :
    (u : Ipv4Addr) (m : List (Ipv4Addr × Lsa)) (l : RouterLink)
    → FitMetrics m
    → In l (links_of (get u m))
    → IsU16 l.metric
unfolding get
metrics_of u [] l h i = absurd i
metrics_of u ((k, lsa) ∷ m) l h i = elim (Bool-cases (k == u)) [
  | inl same ↦
      let j : In l (links_of (some lsa)) = rw same at i in
      All-In (λ (x : RouterLink). IsU16 x.metric) (links_of (some lsa)) l h.0 j
  | inr other ↦ let j : In l (links_of (get u m)) = rw other at i in metrics_of u m l h.1 j
]

pub metric-IsU16 :
    (i : Inputs) (u v : Ipv4Addr) (w : ℕ) → FitMetrics i.router_lsas → Edge i u v w → IsU16 w
metric-IsU16 i u v w h (direct l _ _ m _ _ e) = rw (← e) (metrics_of u i.router_lsas l h m)
metric-IsU16 i u v w h (across l _ _ m _ _ _ e) = rw (← e) (metrics_of u i.router_lsas l h m)

abbrev pub one : Lsa → ℕ
one _ = 1

-- Between two rounds.
pub record Sound (i : Inputs) (t : Tree) : Type 0 where
  pub walk : (v : Ipv4Addr) → cost_to t v < max → Walk i v (cost_to t v)
  pub proper : (v : Ipv4Addr) (d : ℕ) → get v t.dist ≡ some d → d < max
  pub bound :
      (v : Ipv4Addr)
      → cost_to t v < max
      → cost_to t v + 65535 * pending one t.visited i.router_lsas
        ≤ 65535 * pending one [] i.router_lsas
  pub noted : (n : SpfNode) → In n t.heap → cost_to t n.router_id ≤ n.cost
  pub below : (n : SpfNode) → In n t.heap → n.cost < max
  pub frontier :
      (v : Ipv4Addr)
      → cost_to t v < max
      → contains v t.visited ≡ false
      → In (node v (cost_to t v)) t.heap
  pub settled :
      (v : Ipv4Addr) (n : SpfNode)
      → contains v t.visited ≡ true
      → In n t.heap
      → cost_to t v ≤ n.cost
  pub closed :
      (v x : Ipv4Addr) (w : ℕ)
      → contains v t.visited ≡ true
      → Edge i v x w
      → cost_to t x ≤ cost_to t v + w
  pub source : cost_to t i.my_router_id ≡ 0

-- A router without links has no edges.
no_edges : (i : Inputs) (u v : Ipv4Addr) (w : ℕ) → get u i.router_lsas ≡ none → Edge i u v w → ⊥
no_edges i u v w h (direct l _ _ m _ _ _) = let j : In l (links_of none) = rw h at m in j
no_edges i u v w h (across l _ _ m _ _ _ _) = let j : In l (links_of none) = rw h at m in j

contains-cons :
    (v u : Ipv4Addr) (vs : List Ipv4Addr) → contains v (u ∷ vs) ≡ (u == v || contains v vs)
unfolding contains
contains-cons v u vs = refl

module _ (i : Inputs) (fit : FitMetrics i.router_lsas) (few : pending one [] i.router_lsas ≤ 65535)
    (t : Tree) (n : SpfNode) (rest : List SpfNode) (s : Sound i t) (p : Popped t.heap n rest) where
  -- The router was visited before.
  skip-Sound : contains n.router_id t.visited ≡ true → Sound i (record t { heap = rest })
  skip-Sound h = record {
    walk = s.walk;
    proper = s.proper;
    bound = s.bound;
    noted = λ z m. s.noted z (p.old z m);
    below = λ z m. s.below z (p.old z m);
    frontier = λ v f k. frontier v k (p.left (node v (cost_to t v)) (s.frontier v f k));
    settled = λ v z k m. s.settled v z k (p.old z m);
    closed = s.closed;
    source = s.source;
  }
    where
      frontier :
          (v : Ipv4Addr)
          → contains v t.visited ≡ false
          → (node v (cost_to t v) ≡ n) ⊎ In (node v (cost_to t v)) rest
          → In (node v (cost_to t v)) rest
      frontier v k (inl e) =
          let x : v ≡ n.router_id = ap (λ (z : SpfNode). z.router_id) e in
          absurd (ground (arith, x))
      frontier v k (inr m) = m

  module _ (fresh : contains n.router_id t.visited ≡ false) where
    abbrev entered : Tree
    entered = record t { heap = rest; visited = n.router_id ∷ t.visited }

    abbrev limit : ℕ
    limit = 65535 * pending one [] i.router_lsas - 65535 * pending one entered.visited i.router_lsas

    reached : cost_to t n.router_id < max
    reached = omega (arith, s.noted n p.found, s.below n p.found)

    at_its_cost : cost_to t n.router_id ≡ n.cost
    at_its_cost = omega (
      arith,
      s.noted n p.found,
      p.cheapest (node n.router_id (cost_to t n.router_id)) (s.frontier n.router_id reached fresh),
    )

    within_limit : (v : Ipv4Addr) → cost_to t v < max → cost_to t v ≤ limit
    within_limit v h =
        omega (arith, s.bound v h, pending_falls one n.router_id t.visited i.router_lsas)

    small_by :
        (o : Option Lsa)
        → get n.router_id i.router_lsas ≡ o
        → (v : Ipv4Addr) (w : ℕ) → Edge i n.router_id v w
        → n.cost + w ≤ limit
    small_by none h v w e = absurd (no_edges i n.router_id v w h e)
    small_by (some l) h v w e = omega (
      arith,
      at_its_cost,
      s.bound n.router_id reached,
      metric-IsU16 i n.router_id v w fit e,
      pending_pays one n.router_id t.visited i.router_lsas l fresh h,
    )

    small : (v : Ipv4Addr) (w : ℕ) → Edge i n.router_id v w → n.cost + w ≤ limit
    small = small_by (get n.router_id i.router_lsas) refl

    entered_frontier :
        (v : Ipv4Addr)
        → contains v entered.visited ≡ false
        → (node v (cost_to t v) ≡ n) ⊎ In (node v (cost_to t v)) rest
        → In (node v (cost_to t v)) rest
    entered_frontier v k (inl e) =
        let x : v ≡ n.router_id = ap (λ (z : SpfNode). z.router_id) e in
        absurd (ground (arith, x, contains-cons v n.router_id t.visited))
    entered_frontier v k (inr m) = m

    not_before : (v : Ipv4Addr) → contains v entered.visited ≡ false → contains v t.visited ≡ false
    not_before v h = ground (arith, contains-cons v n.router_id t.visited)

    entered_before :
        (v : Ipv4Addr)
        → contains v entered.visited ≡ true
        → (n.router_id ≡ v) ⊎ (contains v t.visited ≡ true)
    entered_before v h = ground (arith, contains-cons v n.router_id t.visited)

    entered_settled : (v : Ipv4Addr) → contains v entered.visited ≡ true → cost_to t v ≤ n.cost
    entered_settled v h = elim (entered_before v h) [
      | inl e ↦ rw (← e) (s.noted n p.found)
      | inr k ↦ s.settled v n k p.found
    ]

    entered_closed :
        (v x : Ipv4Addr) (w : ℕ)
        → contains v entered.visited ≡ true
        → v ≢ n.router_id
        → Edge i v x w
        → cost_to t x ≤ cost_to t v + w
    entered_closed v x w h d e = elim (entered_before v h) [
      | inl q ↦ absurd (d (sym q))
      | inr k ↦ s.closed v x w k e
    ]

    entered-Visiting : Visiting i n.router_id n.cost limit entered
    entered-Visiting = record {
      walk = s.walk;
      proper = s.proper;
      bound = within_limit;
      noted = λ z m. s.noted z (p.old z m);
      below = λ z m. s.below z (p.old z m);
      later = λ z m. p.cheapest z (p.old z m);
      frontier = λ v f k.
          entered_frontier v k (p.left (node v (cost_to t v)) (s.frontier v f (not_before v k)));
      settled = entered_settled;
      closed = entered_closed;
      source = s.source;
      popped = at_its_cost;
      in_visited = ground (arith, contains-cons n.router_id n.router_id t.visited);
    }

    limit_fits : limit < max
    limit_fits = omega arith

    abbrev left : Tree
    left = relax_links i n.router_id n.cost (links_of (get n.router_id i.router_lsas)) entered

    left-Visiting : Visiting i n.router_id n.cost limit left
    left-Visiting =
        (links_of-Keeps i n.router_id n.cost limit small limit_fits entered entered-Visiting).0

    same_visited : left.visited ≡ entered.visited
    same_visited =
        (links-Pushes i n.router_id n.cost (links_of (get n.router_id i.router_lsas))
          entered).same_visited

    left_bound :
        (v : Ipv4Addr)
        → cost_to left v < max
        → cost_to left v + 65535 * pending one left.visited i.router_lsas
          ≤ 65535 * pending one [] i.router_lsas
    left_bound v h = rw same_visited (
        omega (
          arith,
          left-Visiting.bound v h,
          s.bound n.router_id reached,
          pending_falls one n.router_id t.visited i.router_lsas,
        ))

    left_closed :
        (v x : Ipv4Addr) (w : ℕ)
        → contains v left.visited ≡ true
        → Edge i v x w
        → cost_to left x ≤ cost_to left v + w
    left_closed v x w h e = elim (Bool-cases (v == n.router_id)) [
      | inr other ↦ left-Visiting.closed v x w h (ground arith) e
      | inl same ↦
          let q : v ≡ n.router_id = ground arith in
          let f : Edge i n.router_id x w = subst (λ y. Edge i y x w) q e in
          subst (λ y. cost_to left x ≤ cost_to left y + w) (sym q)
            (rw (left-Visiting.popped) (
              edges_closed i n.router_id n.cost limit small limit_fits entered entered-Visiting x w
                f))
    ]

    left-Sound : Sound i left
    left-Sound = record {
      walk = left-Visiting.walk;
      proper = left-Visiting.proper;
      bound = left_bound;
      noted = left-Visiting.noted;
      below = left-Visiting.below;
      frontier = left-Visiting.frontier;
      settled = λ v z k m. omega (arith, left-Visiting.settled v k, left-Visiting.later z m);
      closed = left_closed;
      source = left-Visiting.source;
    }

  pub visit-Sound : Sound i (visit i n (record t { heap = rest }))
  unfolding visit
  visit-Sound = elim (Bool-cases (contains n.router_id t.visited)) [
    | inl old ↦ rw old (skip-Sound old)
    | inr fresh ↦ rw fresh (left-Sound fresh)
  ]
