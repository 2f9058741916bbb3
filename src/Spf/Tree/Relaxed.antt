-- ===== src/Spf/Tree/Relaxed.antt =====
-- What relaxing the links of one node keeps, and what it achieves.
use ospfd.Common.{
  ℕ, ◌+◌, ◌≤◌, ◌<◌, ◌≡◌, ◌≢◌, refl, sym, arith, true, false, ◌&&◌, Option, some, ◌∷◌, ◌⊎◌, inl, inr,
  In, ltb, ◌==◌, if◌then◌else◌, Bool-cases, Ipv4Addr, ◌∙◌,
}
use mathlib.Core.Path.{subst}
use ospfd.Spf.Table.{get, get-put, contains}
use ospfd.Spf.Tree.{NextHop, SpfNode, Inputs, Tree, or_max, new_cost_better, relax}
use ospfd.Spf.Tree.Walks.{Edge, Walk, along}

abbrev pub max : ℕ
max = 0xFFFFFFFF

abbrev pub cost_to : Tree → Ipv4Addr → ℕ
cost_to t v = or_max (get v t.dist)

abbrev pub node : Ipv4Addr → ℕ → SpfNode
node v c = record { router_id = v; cost = c }

pub cost_to-relax :
    (t : Tree) (v : Ipv4Addr) (c : ℕ) (nh : Option NextHop) (j : Ipv4Addr)
    → cost_to (relax t v c nh) j ≡ (if v == j && ltb c (cost_to t v) then c else cost_to t j)
unfolding relax new_cost_better
cost_to-relax t v c nh j = ground (arith, get-put v j c t.dist)

pub relax-visited :
    (t : Tree) (v : Ipv4Addr) (c : ℕ) (nh : Option NextHop) → (relax t v c nh).visited ≡ t.visited
unfolding relax new_cost_better
relax-visited t v c nh = ground arith

relax-heap :
    (t : Tree) (v : Ipv4Addr) (c : ℕ) (nh : Option NextHop)
    → (relax t v c nh).heap ≡ (if ltb c (cost_to t v) then node v c ∷ t.heap else t.heap)
unfolding relax new_cost_better
relax-heap t v c nh = ground arith

relax-proper :
    (t : Tree) (v : Ipv4Addr) (c : ℕ) (nh : Option NextHop) (j : Ipv4Addr) (d : ℕ)
    → c < max
    → get j (relax t v c nh).dist ≡ some d
    → (get j t.dist ≡ some d) ⊎ (d < max)
unfolding relax new_cost_better
relax-proper t v c nh j d h e = ground (arith, get-put v j c t.dist)

-- While the links of the node `u`, popped at the cost `c`, are gone through: all costs noted are
-- those of walks, and at most `b`; an entry of the heap is no cheaper than `c` and than what is
-- noted for its router; a router that is not visited stands in the heap at its cost; a visited
-- one cost at most `c`, and but for `u` its links were gone through.
pub record Visiting (i : Inputs) (u : Ipv4Addr) (c b : ℕ) (t : Tree) : Type 0 where
  pub walk : (v : Ipv4Addr) → cost_to t v < max → Walk i v (cost_to t v)
  pub proper : (v : Ipv4Addr) (d : ℕ) → get v t.dist ≡ some d → d < max
  pub bound : (v : Ipv4Addr) → cost_to t v < max → cost_to t v ≤ b
  pub noted : (n : SpfNode) → In n t.heap → cost_to t n.router_id ≤ n.cost
  pub below : (n : SpfNode) → In n t.heap → n.cost < max
  pub later : (n : SpfNode) → In n t.heap → c ≤ n.cost
  pub frontier :
      (v : Ipv4Addr)
      → cost_to t v < max
      → contains v t.visited ≡ false
      → In (node v (cost_to t v)) t.heap
  pub settled : (v : Ipv4Addr) → contains v t.visited ≡ true → cost_to t v ≤ c
  pub closed :
      (v x : Ipv4Addr) (w : ℕ)
      → contains v t.visited ≡ true
      → v ≢ u
      → Edge i v x w
      → cost_to t x ≤ cost_to t v + w
  pub source : cost_to t i.my_router_id ≡ 0
  pub popped : cost_to t u ≡ c
  pub in_visited : contains u t.visited ≡ true

module _ (i : Inputs) (u : Ipv4Addr) (c b : ℕ) (t : Tree) (v : Ipv4Addr) (w : ℕ)
    (nh : Option NextHop) (e : Edge i u v w) (fits : c + w < max) (within : c + w ≤ b)
    (s : Visiting i u c b t) where
  abbrev after : Tree
  after = relax t v (c + w) nh

  better :
      (j : Ipv4Addr)
      → cost_to after j ≡ (if v == j && ltb (c + w) (cost_to t v) then c + w else cost_to t j)
  better = cost_to-relax t v (c + w) nh

  -- The cost of a visited router does not change.
  kept : (j : Ipv4Addr) → contains j t.visited ≡ true → cost_to after j ≡ cost_to t j
  kept j h = ground (arith, better j, s.settled j h)

  pub not_up : (j : Ipv4Addr) → cost_to after j ≤ cost_to t j
  not_up j = ground (arith, better j)

  new-Walk : Walk i v (c + w)
  new-Walk = along u v c w (c + w) (rw (← s.popped) (s.walk u (omega (arith, s.popped)))) e refl

  Walk-after : (j : Ipv4Addr) → cost_to after j < max → Walk i j (cost_to after j)
  Walk-after j h = elim (Bool-cases (v == j && ltb (c + w) (cost_to t v))) [
    | inl new ↦
        let e1 : cost_to after j ≡ c + w = ground (arith, better j) in
        let e2 : v ≡ j = ground arith in
        subst (λ d. Walk i j d) (sym e1) (subst (λ x. Walk i x (c + w)) e2 new-Walk)
    | inr same ↦
        let e1 : cost_to after j ≡ cost_to t j = ground (arith, better j) in
        subst (λ d. Walk i j d) (sym e1) (s.walk j (omega (arith, e1)))
  ]

  still_in : (n : SpfNode) → In n t.heap → In n after.heap
  still_in n m = ground (arith, relax-heap t v (c + w) nh)

  new_in : ltb (c + w) (cost_to t v) ≡ true → In (node v (c + w)) after.heap
  new_in h = ground (arith, relax-heap t v (c + w) nh)

  frontier_after :
      (j : Ipv4Addr)
      → cost_to after j < max
      → contains j after.visited ≡ false
      → In (node j (cost_to after j)) after.heap
  frontier_after j h k = elim (Bool-cases (v == j && ltb (c + w) (cost_to t v))) [
    | inl new ↦
        let e1 : cost_to after j ≡ c + w = ground (arith, better j) in
        let e2 : v ≡ j = ground arith in
        subst (λ d. In (node j d) after.heap) (sym e1)
          (subst (λ x. In (node x (c + w)) after.heap) e2 (new_in (ground arith)))
    | inr same ↦
        let e1 : cost_to after j ≡ cost_to t j = ground (arith, better j) in
        let out : contains j t.visited ≡ false = ground (arith, relax-visited t v (c + w) nh) in
        subst (λ d. In (node j d) after.heap) (sym e1)
          (still_in (node j (cost_to t j)) (s.frontier j (omega (arith, e1)) out))
  ]

  pub relax-Visiting : Visiting i u c b after
  relax-Visiting = record {
    walk = Walk-after;
    proper = λ j d h. ground (arith, relax-proper t v (c + w) nh j d fits h, s.proper j d);
    bound = λ j h. ground (arith, better j, s.bound j);
    noted = λ n m. ground (arith, relax-heap t v (c + w) nh, better n.router_id, s.noted n);
    below = λ n m. ground (arith, relax-heap t v (c + w) nh, s.below n);
    later = λ n m. ground (arith, relax-heap t v (c + w) nh, s.later n);
    frontier = frontier_after;
    settled = λ j h. ground (arith, relax-visited t v (c + w) nh, better j, s.settled j);
    closed = λ j x y h d f.
        ground (arith, relax-visited t v (c + w) nh, kept j, not_up x, s.closed j x y);
    source = ground (arith, better i.my_router_id, s.source);
    popped = kept u s.in_visited ∙ s.popped;
    in_visited = rw (relax-visited t v (c + w) nh) (s.in_visited);
  }
