-- ===== src/Interface/Examples.antt =====
-- The election and the interface state machine at concrete inputs.
use ospfd.Common.{◌≡◌, ◌≢◌, ◌⊎◌, inl, inr, refl, arith, some, List, [], ◌∷◌, Ipv4Addr, unspecified}
use ospfd.Neighbor.Machine
use ospfd.Neighbor.Machine.{Neighbor, new_neighbor}
use ospfd.Interface.Election.{
  Candidate, elect, elect_bdr, elect_declarer, elect_other, role_changed, election_loop,
  self_candidate,
}
use ospfd.Interface.Election.Maximum.{In}
use ospfd.Interface.Election.Independence.{DistinctIds}
use ospfd.Interface.Machine.{
  OspfInterface, InterfaceState, NetworkType, waiting, wait_timer, new_interface, candidates,
  elected, run_dr_election, reevaluate_adjacencies, react, handle_event,
}
use ospfd.Interface.Machine.Roles.{AgreesWithRole, handle_event-AgreesWithRole}
use ospfd.Interface.Machine.Candidates.{elected_same, HeldBy, elected_held}

abbrev first : Candidate
first = record { router_id = 1; ip_address = 11; priority = 1; declared_dr = 11; declared_bdr = 0 }

abbrev other : Candidate
other = record { router_id = 2; ip_address = 12; priority = 5; declared_dr = 0; declared_bdr = 12 }

abbrev two : List Candidate
two = first ∷ other ∷ []

abbrev peer : Neighbor
peer = record (new_neighbor 2 12 0) { state = Machine.two_way; priority = 1 }

abbrev third : Neighbor
third = record (new_neighbor 3 13 0) { state = Machine.two_way; priority = 4 }

abbrev at_waiting : OspfInterface
at_waiting = record (new_interface "eth0" 1 10 0xFFFFFF00 0 NetworkType.broadcast 9 0) {
  state = waiting;
  wait_timer_expiry = some 40000000000;
  priority = 8;
  neighbors = (2, peer) ∷ (3, third) ∷ [];
}

at_waiting-AgreesWithRole : AgreesWithRole at_waiting
unfolding new_interface
at_waiting-AgreesWithRole = record {
  as_dr = λ h. ground arith;
  as_backup = λ h. ground arith;
  as_other = λ h. ground arith;
  no_election = λ h. (refl, refl);
  timer_runs = λ h k. ground arith;
  timer_rests = λ h. absurd (h refl);
}

at_waiting-address : at_waiting.address ≢ unspecified
unfolding new_interface
at_waiting-address h = ground arith

handle_event-AgreesWithRole_example :
    (AgreesWithRole (handle_event at_waiting wait_timer 50000000000).0)
    × ((handle_event at_waiting wait_timer 50000000000).0.address ≡ at_waiting.address)
handle_event-AgreesWithRole_example =
    handle_event-AgreesWithRole at_waiting wait_timer 50000000000 at_waiting-address
      at_waiting-AgreesWithRole

becomes_dr : (handle_event at_waiting wait_timer 50000000000).1 ≡ some InterfaceState.dr
unfolding handle_event react run_dr_election elected election_loop candidates self_candidate
    role_changed elect elect_bdr elect_declarer elect_other new_interface new_neighbor
    reevaluate_adjacencies
becomes_dr = refl

elected_held_example :
    HeldBy at_waiting (elected at_waiting).0
    × HeldBy at_waiting (elected at_waiting).1
    × (((elected at_waiting).1 ≡ unspecified) ⊎ ((elected at_waiting).1 ≢ (elected at_waiting).0))
elected_held_example = elected_held at_waiting

abbrev swapped : List (Ipv4Addr × Neighbor)
swapped = (3, third) ∷ (2, peer) ∷ []

to_swapped : (x : Ipv4Addr × Neighbor) → In x at_waiting.neighbors → In x swapped
to_swapped x (inl e) = inr (inl e)
to_swapped x (inr (inl e)) = inl e
to_swapped x (inr (inr m)) = absurd m

from_swapped : (x : Ipv4Addr × Neighbor) → In x swapped → In x at_waiting.neighbors
from_swapped x (inl e) = inr (inl e)
from_swapped x (inr (inl e)) = inl e
from_swapped x (inr (inr m)) = absurd m

at_waiting-DistinctIds : (self : Ipv4Addr × Ipv4Addr) → DistinctIds (candidates at_waiting self)
unfolding new_interface candidates self_candidate new_neighbor
at_waiting-DistinctIds self a b m n e = ground arith

elected_same_example : elected (record at_waiting { neighbors = swapped }) ≡ elected at_waiting
elected_same_example =
    elected_same at_waiting swapped to_swapped from_swapped at_waiting-DistinctIds
