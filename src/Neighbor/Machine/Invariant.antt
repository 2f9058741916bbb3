-- ===== src/Neighbor/Machine/Invariant.antt =====
-- What `handle_event` keeps: below ExStart a neighbor holds no exchange data.
use ospfd.Common.{ℕ, ◌<◌, ◌≤◌, ◌≡◌, arith, Bool, none, []}
use ospfd.Neighbor.Machine.{
  NeighborEvent, Neighbor, rank, ex_start, bad_ls_req, seq_number_mismatch, clear_lists,
  handle_event,
}

-- The request, retransmission and summary lists are empty and no DD packet is remembered.
pub record HoldsNothing (n : Neighbor) : Type 0 where
  pub requests : n.ls_request_list ≡ []
  pub retransmissions : n.ls_retransmit_list ≡ []
  pub summaries : n.db_summary_list ≡ []
  pub last_packet : n.last_dd ≡ none

abbrev pub IsClean : Neighbor → Type 0
IsClean n = rank n.state < 4 → HoldsNothing n

-- A neighbor that, if it is below ExStart, has empty request, retransmission and summary lists and no
-- remembered DD packet is such a neighbor after any event too.
pub handle_event-IsClean :
    (n : Neighbor) (e : NeighborEvent) (f : Bool) (now : ℕ)
    → IsClean n
    → IsClean (handle_event n e f now).0
unfolding handle_event clear_lists
handle_event-IsClean n e f now c h = ground (arith, c)

-- A sequence mismatch or a bad request, in ExStart or later, leaves ExStart with all lists
-- empty, also when the state was ExStart already and no change is reported.
pub restart_lem :
    (n : Neighbor) (f : Bool) (now : ℕ)
    → 4 ≤ rank n.state
    → (HoldsNothing (handle_event n seq_number_mismatch f now).0)
      × ((handle_event n seq_number_mismatch f now).0.state ≡ ex_start)
      × (handle_event n bad_ls_req f now ≡ handle_event n seq_number_mismatch f now)
unfolding handle_event clear_lists
restart_lem n f now h = ground arith
