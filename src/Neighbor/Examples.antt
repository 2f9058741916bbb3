-- ===== src/Neighbor/Examples.antt =====
-- The neighbor state machine at concrete inputs.
use ospfd.Common.{◌≡◌, refl, true, some, List, [], ◌∷◌}
use mathlib.Core.Logic.{◌↔◌}
use ospfd.Neighbor.Machine.{
  NeighborEvent, Neighbor, two_way, ex_start, exchange, full, hello_received, two_way_received,
  negotiation_done, exchange_done, adj_ok, new_neighbor, handle_event,
}
use ospfd.Neighbor.Machine.Transitions.{Moves, handle_event_iff_Moves}
use ospfd.Neighbor.Machine.Invariant.{IsClean}
use ospfd.Neighbor.Machine.Progress.{Input, run, milestones, full_needs_milestones}

abbrev peer : Neighbor
peer = new_neighbor 0x02020202 0x0A000002 7

abbrev at_two_way : Neighbor
at_two_way = record peer { state = two_way }

abbrev exchanging : Neighbor
exchanging = record peer {
  state = exchange;
  ls_request_list =
      record { ls_type = ospfd.Packet.Lsa.Header.router; link_state_id = 1; advertising_router = 1 }
      ∷ [];
}

handle_event_iff_Moves_example :
    ((handle_event at_two_way adj_ok true 9).1 ≡ some ex_start)
    ↔ Moves two_way adj_ok true at_two_way.ls_request_list ex_start
handle_event_iff_Moves_example = handle_event_iff_Moves at_two_way adj_ok true 9 ex_start

at_two_way-IsClean : IsClean at_two_way
unfolding new_neighbor
at_two_way-IsClean h = record {
  requests = refl;
  retransmissions = refl;
  summaries = refl;
  last_packet = refl;
}

abbrev input : NeighborEvent → Input
input e = record {
  event = e;
  form = true;
  time = 9;
  requests = [];
  retransmissions = [];
  summaries = [];
}

abbrev bring_up : List Input
bring_up =
    input hello_received
    ∷ input two_way_received
    ∷ input negotiation_done
    ∷ input exchange_done
    ∷ []

bring_up_full : (run peer bring_up).state ≡ full
unfolding run handle_event new_neighbor
bring_up_full = refl

full_needs_milestones_example : milestones 0 bring_up ≡ 4
full_needs_milestones_example = full_needs_milestones 0x02020202 0x0A000002 7 bring_up bring_up_full
