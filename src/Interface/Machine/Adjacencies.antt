-- ===== src/Interface/Machine/Adjacencies.antt =====
-- What a change of the interface's role does to the neighbors.
use ospfd.Common.{
  ℕ, ◌≤◌, ◌≡◌, ◌≢◌, refl, sym, arith, inl, inr, Bool-cases, ◌==◌, true, Option, none, some, List,
  [], ◌∷◌, All, map, Ipv4Addr,
}
use mathlib.Core.Path.{subst}
use ospfd.Neighbor.Machine
use ospfd.Neighbor.Machine.{Neighbor, rank}
use ospfd.Interface.Machine.{
  InterfaceState, InterfaceEvent, OspfInterface, backup, dr, should_adj, reevaluate,
  reevaluate_adjacencies, commit, code, is_dr_or_backup, react, handle_event,
}

-- A neighbor in 2-Way or better is in ExStart or better.
abbrev pub IsAdjacent : Ipv4Addr × Neighbor → Type 0
IsAdjacent (id, n) = 3 ≤ rank n.state → 4 ≤ rank n.state

reevaluate-IsAdjacent :
    (i : OspfInterface) (now : ℕ) (x : Ipv4Addr × Neighbor)
    → is_dr_or_backup i.state ≡ true
    → IsAdjacent (reevaluate i now x)
unfolding should_adj Machine.handle_event
reevaluate-IsAdjacent i now (id, n) h = λ k. ground arith

All-IsAdjacent :
    (i : OspfInterface) (now : ℕ) (xs : List (Ipv4Addr × Neighbor))
    → is_dr_or_backup i.state ≡ true
    → All IsAdjacent (map (reevaluate i now) xs)
All-IsAdjacent i now [] h = tt
All-IsAdjacent i now (x ∷ xs) h = (reevaluate-IsAdjacent i now x h, All-IsAdjacent i now xs h)

commit-IsAdjacent :
    (old : InterfaceState) (now : ℕ) (i : OspfInterface) (new : InterfaceState)
    → is_dr_or_backup new ≡ true
    → (commit old now (i, some new)).1 ≢ none
    → All IsAdjacent (commit old now (i, some new)).0.neighbors
unfolding reevaluate_adjacencies
commit-IsAdjacent old now i dr h c = elim (Bool-cases (6 == code old)) [
  | inl same ↦ absurd (c (rw same))
  | inr moved ↦ rw moved (All-IsAdjacent (record i { state = dr }) now i.neighbors refl)
]
commit-IsAdjacent old now i backup h c = elim (Bool-cases (5 == code old)) [
  | inl same ↦ absurd (c (rw same))
  | inr moved ↦ rw moved (All-IsAdjacent (record i { state = backup }) now i.neighbors refl)
]
commit-IsAdjacent old now i _ h c = cc

reported :
    (old : InterfaceState) (now : ℕ) (i : OspfInterface) (o : Option InterfaceState)
    (s : InterfaceState)
    → (commit old now (i, o)).1 ≡ some s
    → is_dr_or_backup s ≡ true
    → (o ≡ some s)
reported old now i none s h k = cc
reported old now i (some new) s h k = ground arith

-- When an event makes us DR or Backup, then in the state behind it every neighbor in 2-Way or
-- better is in ExStart or better.
pub new_role-IsAdjacent :
    (i : OspfInterface) (e : InterfaceEvent) (now : ℕ) (s : InterfaceState)
    → (handle_event i e now).1 ≡ some s
    → is_dr_or_backup s ≡ true
    → All IsAdjacent (handle_event i e now).0.neighbors
unfolding handle_event
new_role-IsAdjacent i e now s h k =
    let q = react i.state e i now in
    let o : q.1 ≡ some s = reported i.state now q.0 q.1 s h k in
    subst (λ r. All IsAdjacent (commit i.state now (q.0, r)).0.neighbors) (sym o)
      (commit-IsAdjacent i.state now q.0 s k (λ n. ground (arith, o)))
