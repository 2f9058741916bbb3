-- ===== src/Interface/Machine/Kept.antt =====
-- What an election leaves as it is of each neighbor, by the neighbor's router id.
use ospfd.Common.{
  ℕ, ◌≡◌, refl, ap, ◌∙◌, arith, Bool, true, false, Option, none, some, List, [], ◌∷◌, map, ◌==◌,
  if◌then◌else◌, Ipv4Addr,
}
use ospfd.Neighbor.Machine as Peer
use ospfd.Neighbor.Machine.{Neighbor, state_ge, two_way, adj_ok}
use ospfd.Interface.Machine.{
  OspfInterface, InterfaceState, backup_seen, neighbor_change, run_dr_election, reevaluate,
  reevaluate_adjacencies, should_adj, react, commit, handle_event,
}
use ospfd.Spf.Table.{get, put, get-put}

-- The neighbor is known and passes the test.
unfoldable pub holds_in : (Neighbor → Bool) → List (Ipv4Addr × Neighbor) → Ipv4Addr → Bool
holds_in p ns id = elim (get id ns) [ none ↦ false | some n ↦ p n ]

pub holds_in-put :
    (p : Neighbor → Bool) (k j : Ipv4Addr) (n : Neighbor) (ns : List (Ipv4Addr × Neighbor))
    → holds_in p (put k n ns) j ≡ (if k == j then p n else holds_in p ns j)
unfolding holds_in
holds_in-put p k j n ns = ground (arith, get-put k j n ns)

react_neighbors :
    (s : InterfaceState) (i : OspfInterface) (now : ℕ)
    → ((react s backup_seen i now).0.neighbors ≡ i.neighbors)
      × ((react s neighbor_change i now).0.neighbors ≡ i.neighbors)
unfolding react run_dr_election
react_neighbors s i now = ground arith

-- A test that `AdjOk?` does not change, on a neighbor in 2-Way or better.
abbrev pub Kept : (Neighbor → Bool) → Type 0
Kept p =
    (n : Neighbor) (form : Bool) (now : ℕ)
    → state_ge n.state two_way ≡ true
    → p (Peer.handle_event n adj_ok form now).0 ≡ p n

module _ (p : Neighbor → Bool) (kept : Kept p) where
  holds_in-reevaluate :
      (i : OspfInterface) (now : ℕ) (ns : List (Ipv4Addr × Neighbor)) (j : Ipv4Addr)
      → holds_in p (map (reevaluate i now) ns) j ≡ holds_in p ns j
  unfolding holds_in get
  holds_in-reevaluate i now [] j = refl
  holds_in-reevaluate i now ((k, n) ∷ ns) j =
      ground (arith, holds_in-reevaluate i now ns j, kept n (should_adj i n) now)

  holds_in-commit :
      (old : InterfaceState) (now : ℕ) (i : OspfInterface) (o : Option InterfaceState)
      (j : Ipv4Addr)
      → holds_in p (commit old now (i, o)).0.neighbors j ≡ holds_in p i.neighbors j
  unfolding reevaluate_adjacencies
  holds_in-commit old now i none j = refl
  holds_in-commit old now i (some new) j =
      ground (arith, holds_in-reevaluate (record i { state = new }) now i.neighbors j)

  -- An election changes no such test.
  pub holds_in-election :
      (i : OspfInterface) (now : ℕ) (j : Ipv4Addr)
      → (holds_in p (handle_event i backup_seen now).0.neighbors j ≡ holds_in p i.neighbors j)
        × (holds_in p (handle_event i neighbor_change now).0.neighbors j ≡ holds_in p i.neighbors j)
  unfolding handle_event
  holds_in-election i now j =
      let q = react i.state backup_seen i now in
      let r = react i.state neighbor_change i now in
      (
        holds_in-commit i.state now q.0 q.1 j
            ∙ ap (λ ns. holds_in p ns j) (react_neighbors i.state i now).0,
        holds_in-commit i.state now r.0 r.1 j
            ∙ ap (λ ns. holds_in p ns j) (react_neighbors i.state i now).1,
      )
