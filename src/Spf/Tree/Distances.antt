-- ===== src/Spf/Tree/Distances.antt =====
-- The loop ends, and the costs that it leaves are the distances in the graph.
use ospfd.Common.{
  ℕ, zero, suc, ◌≤◌, ◌<◌, ◌≡◌, ◌≢◌, refl, ap, arith, true, none, some, List, [], ◌∷◌, inl, inr, In,
  length, Bool-cases, Ipv4Addr, ◌∙◌, ok, ◌==◌,
}
use mathlib.Core.Path.{subst}
use mathlib.Core.Logic.{◌↔◌}
use ospfd.Spf.Table.{get, contains}
use ospfd.Spf.Tree.{SpfNode, Inputs, Tree, extract, visit, search_tree, root}
use ospfd.Spf.Tree.Walks.{Walk, here, along, IsDistance}
use ospfd.Spf.Tree.Pop.{Popped, extract-Popped}
use ospfd.Spf.Tree.Relaxed.{max, cost_to, node}
use ospfd.Spf.Tree.Fuel.{pending, measure, visit-measure, shortest_paths, pending-length}
use ospfd.Spf.Tree.Round.{FitMetrics, metric-IsU16, one, Sound, visit-Sound}

-- With as many rounds as the measure asks for, the loop ends by itself, with the heap empty.
record Ended (i : Inputs) (fuel : ℕ) (t : Tree) : Type 0 where
  pub last : Tree
  pub returns : search_tree fuel i t ≡ ok last
  pub empty : last.heap ≡ []
  pub sound : Sound i last

module _ (i : Inputs) (fit : FitMetrics i.router_lsas)
    (few : pending one [] i.router_lsas ≤ 65535) where
  search_ends :
      (fuel : ℕ) (t : Tree) (h : List SpfNode)
      → t.heap ≡ h
      → measure i t < fuel
      → Sound i t
      → Ended i fuel t
  unfolding search_tree
  search_ends zero t h e m s = absurd (omega arith)
  search_ends (suc fuel) t [] e m s = record { last = t; returns = rw e; empty = e; sound = s }
  search_ends (suc fuel) t (x ∷ xs) e m s =
      let n = (extract x xs).0 in
      let rest = (extract x xs).1 in
      let p : Popped t.heap n rest = rw e (extract-Popped x xs) in
      let next = visit i n (record t { heap = rest }) in
      let r =
        search_ends fuel next next.heap refl (omega (arith, visit-measure i t n rest p))
          (visit-Sound i fit few t n rest s p) in
      record { last = r.last; returns = rw e (r.returns); empty = r.empty; sound = r.sound }

  visited_of :
      (t : Tree) (u : Ipv4Addr)
      → Sound i t
      → t.heap ≡ []
      → cost_to t u < max
      → contains u t.visited ≡ true
  visited_of t u s e lt = elim (Bool-cases (contains u t.visited)) [
    | inl h ↦ h
    | inr h ↦ let m : In (node u (cost_to t u)) [] = rw e at (s.frontier u lt h) in absurd m
  ]

  -- What is noted is no more than any walk costs.
  Walk-bound :
      (t : Tree)
      → Sound i t
      → t.heap ≡ []
      → (v : Ipv4Addr) (c : ℕ) → Walk i v c
      → (cost_to t v ≤ c) × (cost_to t v < max)
  Walk-bound t s e v c (here _ _ p q) =
      let z : cost_to t v ≡ 0 = subst (λ x. cost_to t x ≡ 0) p (s.source) in omega arith
  Walk-bound t s e v c (along u _ a w _ k edge q) =
      let (le, lt) = Walk-bound t s e u a k in
      let closed = s.closed u v w (visited_of t u s e lt) edge in
      omega (arith, closed, s.bound u lt, metric-IsU16 i u v w fit edge)

  some_of_cost : (t : Tree) (v : Ipv4Addr) → cost_to t v < max → get v t.dist ≡ some (cost_to t v)
  some_of_cost t v h = ground arith

  -- What is noted in the end is the distance, and there is a note for each router with a walk.
  noted_iff :
      (t : Tree)
      → Sound i t
      → t.heap ≡ []
      → (v : Ipv4Addr) (d : ℕ) → (get v t.dist ≡ some d) ↔ IsDistance i v d
  noted_iff t s e v d = (to, from)
    where
      to : get v t.dist ≡ some d → IsDistance i v d
      to h =
          let c : cost_to t v ≡ d = rw h in
          let w : Walk i v d =
            subst (λ x. Walk i v x) c (s.walk v (omega (arith, c, s.proper v d h))) in
          record { reached = w; least = λ k m. omega (arith, c, (Walk-bound t s e v k m).0) }

      from : IsDistance i v d → get v t.dist ≡ some d
      from h =
          let (le, lt) = Walk-bound t s e v d (h.reached) in
          let ge = h.least (cost_to t v) (s.walk v lt) in
          let c : cost_to t v ≡ d = omega arith in some_of_cost t v lt ∙ ap some c

  no_note : (t : Tree) (v : Ipv4Addr) → get v t.dist ≡ none → cost_to t v < max → ⊥
  no_note t v h lt = ground arith

root-Walk : (i : Inputs) (v : Ipv4Addr) → cost_to (root i) v < max → Walk i v (cost_to (root i) v)
unfolding root get
root-Walk i v h = elim (Bool-cases (i.my_router_id == v)) [
  | inl same ↦ rw same (here v 0 (ground arith) refl)
  | inr other ↦ let no : max < max = rw other at h in absurd (omega arith)
]

root-Sound : (i : Inputs) → Sound i (root i)
unfolding root get contains
root-Sound i = record {
  walk = root-Walk i;
  proper = λ v d h. ground arith;
  bound = λ v h. ground arith;
  noted = λ n m. ground arith;
  below = λ n m. ground arith;
  frontier = λ v h k. ground arith;
  settled = λ v n h m. cc;
  closed = λ v x w h e. cc;
  source = ground arith;
}

-- For at most 65535 routers with metrics of 16 bits, the loop ends within the rounds that it is
-- given; and it then notes for a router a cost exactly if that is the least cost of a walk to the
-- router, and one for each router that there is a walk to.
pub shortest_paths-IsDistance :
    (i : Inputs)
    → FitMetrics i.router_lsas
    → length i.router_lsas ≤ 65535
    → (t : Tree) × (shortest_paths i ≡ ok t)
      × ((v : Ipv4Addr) (d : ℕ) → (get v t.dist ≡ some d) ↔ IsDistance i v d)
      × ((v : Ipv4Addr) (c : ℕ) → Walk i v c → get v t.dist ≢ none)
unfolding shortest_paths
shortest_paths-IsDistance i fit few =
    let n : pending one [] i.router_lsas ≤ 65535 = omega (arith, pending-length i.router_lsas) in
    let r =
      search_ends i fit n (suc (measure i (root i))) (root i) (root i).heap refl (omega arith)
        (root-Sound i) in
    (
      r.last,
      r.returns,
      noted_iff i fit n r.last r.sound r.empty,
      λ v c w h. no_note i fit n r.last v h (Walk-bound i fit n r.last r.sound r.empty v c w).1,
    )
