-- ===== src/Instance/Sound/Neighbors.antt =====
-- The events of neighbors and interfaces keep the neighbors quiet.
use ospfd.Common.{
  ℕ, ◌≡◌, arith, Bool, Option, none, some, List, [], ◌∷◌, map, Ipv4Addr, Bool-cases, inl, inr, ◌==◌,
}
use mathlib.Core.Path.{subst, sym}
use mathlib.Core.Logic.{◌⊎◌}
use ospfd.Neighbor.Machine as Peer
use ospfd.Neighbor.Machine.{
  Neighbor, NeighborEvent, NeighborState, new_neighbor, state_ge, two_way, adj_ok, clear_lists,
}
use ospfd.Interface.Machine as Link
use ospfd.Interface.Machine.{
  OspfInterface, InterfaceState, InterfaceEvent, react, commit, reevaluate, reevaluate_adjacencies,
  run_dr_election, should_adj, takes_part, code, backup_seen, neighbor_change,
}
use ospfd.Instance.Sound.{IsQuiet, HasQuietNeighbors, Values}

pub handle_event-IsQuiet :
    (n : Neighbor) (e : NeighborEvent) (form : Bool) (now : ℕ)
    → IsQuiet n
    → IsQuiet (Peer.handle_event n e form now).0
unfolding Peer.handle_event clear_lists
handle_event-IsQuiet n e form now q h = ground (arith, q)

pub new_neighbor-IsQuiet : (id src : Ipv4Addr) (now : ℕ) → IsQuiet (new_neighbor id src now)
unfolding new_neighbor
new_neighbor-IsQuiet id src now h = ground arith

reevaluate-IsQuiet :
    (i : OspfInterface) (now : ℕ) (x : Ipv4Addr × Neighbor)
    → IsQuiet x.1
    → IsQuiet (reevaluate i now x).1
reevaluate-IsQuiet i now (id, n) q = elim (Bool-cases (state_ge n.state two_way)) [
  | inl deep ↦ rw deep (handle_event-IsQuiet n adj_ok (should_adj i n) now q)
  | inr below ↦ rw below (q)
]

reevaluate-Values :
    (i : OspfInterface) (now : ℕ) (ns : List (Ipv4Addr × Neighbor))
    → Values IsQuiet ns
    → Values IsQuiet (map (reevaluate i now) ns)
reevaluate-Values i now [] h = tt
reevaluate-Values i now ((id, n) ∷ ns) h =
    (reevaluate-IsQuiet i now (id, n) h.0, reevaluate-Values i now ns h.1)

commit-Values :
    (old : InterfaceState) (now : ℕ) (i : OspfInterface) (o : Option InterfaceState)
    → HasQuietNeighbors i
    → HasQuietNeighbors (commit old now (i, o)).0
unfolding reevaluate_adjacencies
commit-Values old now i none h = h
commit-Values old now i (some new) h = elim (Bool-cases (code new == code old)) [
  | inl same ↦ rw same h
  | inr moved ↦ elim (Bool-cases (takes_part new)) [
    | inl takes ↦ rw (moved, takes) (reevaluate-Values (record i { state = new }) now i.neighbors h)
    | inr waits ↦ rw (moved, waits) h
  ]
]

react-Values :
    (s : InterfaceState) (e : InterfaceEvent) (i : OspfInterface) (now : ℕ)
    → ((react s e i now).0.neighbors ≡ i.neighbors) ⊎ ((react s e i now).0.neighbors ≡ [])
unfolding react run_dr_election
react-Values s e i now = ground arith

-- Every event of an interface keeps its neighbors quiet.
pub event-Values :
    (i : OspfInterface) (e : InterfaceEvent) (now : ℕ)
    → HasQuietNeighbors i
    → HasQuietNeighbors (Link.handle_event i e now).0
unfolding Link.handle_event
event-Values i e now q =
    let r = react i.state e i now in
    commit-Values i.state now r.0 r.1 (elim (react-Values i.state e i now) [
      | inl same ↦ subst (Values IsQuiet) (sym same) q
      | inr empty ↦ subst (Values IsQuiet) (sym empty) tt
    ])
