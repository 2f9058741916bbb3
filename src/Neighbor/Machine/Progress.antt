-- ===== src/Neighbor/Machine/Progress.antt =====
-- Runs of the neighbor state machine: full adjacency is reached through the stages only.
use ospfd.Common.{ℕ, zero, suc, ◌≤◌, ◌≡◌, refl, arith, if◌then◌else◌, Bool, List, [], ◌∷◌, Ipv4Addr}
use mathlib.Core.Path.{subst}
use ospfd.Packet.Lsa.Header.{LsaKey, LsaHeader}
use ospfd.Neighbor.Machine.{
  NeighborState, down, attempt, init, two_way, ex_start, exchange, loading, full, NeighborEvent,
  hello_received, two_way_received, negotiation_done, exchange_done, Neighbor, new_neighbor,
  handle_event, state_ge,
}
use ospfd.Neighbor.Machine.Invariant.{HoldsNothing, IsClean, handle_event-IsClean}

-- An event, whether an adjacency should form then, and the time; and what the lists hold when it
-- comes, since other code fills them between two events, from ExStart on.
pub record Input : Type 0 where
  pub event : NeighborEvent
  pub form : Bool
  pub time : ℕ
  pub requests : List LsaKey
  pub retransmissions : List LsaHeader
  pub summaries : List LsaHeader

abbrev fill : Input → Neighbor → Neighbor
fill i n =
    if state_ge n.state ex_start
    then record n {
      ls_request_list = i.requests;
      ls_retransmit_list = i.retransmissions;
      db_summary_list = i.summaries;
    }
    else n

unfoldable pub run : Neighbor → List Input → Neighbor
run n [] = n
run n (i ∷ is) = run (handle_event (fill i n) i.event i.form i.time).0 is

-- How many of the four milestones Hello, TwoWayReceived, NegotiationDone and ExchangeDone a list
-- of events contains, in this order: `k` of them were met before.
abbrev pub advance : ℕ → NeighborEvent → ℕ
advance zero hello_received = 1
advance (suc zero) two_way_received = 2
advance (suc (suc zero)) negotiation_done = 3
advance (suc (suc (suc zero))) exchange_done = 4
advance k _ = k

abbrev pub milestones : ℕ → List Input → ℕ
milestones k [] = k
milestones k (i ∷ is) = milestones (advance k i.event) is

abbrev stage : NeighborState → ℕ
stage down = 0
stage attempt = 0
stage init = 1
stage two_way = 2
stage ex_start = 2
stage exchange = 3
stage loading = 4
stage full = 4

stage-handle_event :
    (n : Neighbor) (e : NeighborEvent) (f : Bool) (now : ℕ)
    → stage (handle_event n e f now).0.state ≤ advance (stage n.state) e
unfolding handle_event
stage-handle_event n e f now = ground arith

advance_mono : (j k : ℕ) (e : NeighborEvent) → j ≤ k → advance j e ≤ advance k e
advance_mono j k e h = ground arith

milestones_mono : (j k : ℕ) (is : List Input) → j ≤ k → milestones j is ≤ milestones k is
milestones_mono j k [] h = h
milestones_mono j k (i ∷ is) h =
    milestones_mono (advance j i.event) (advance k i.event) is (advance_mono j k i.event h)

fill-state : (i : Input) (n : Neighbor) → (fill i n).state ≡ n.state
fill-state i n = ground arith

fill-IsClean : (i : Input) (n : Neighbor) → IsClean n → IsClean (fill i n)
fill-IsClean i n c h = ground (arith, c)

milestones-le : (k : ℕ) (is : List Input) → k ≤ 4 → milestones k is ≤ 4
milestones-le k [] h = h
milestones-le k (i ∷ is) h = milestones-le (advance k i.event) is (ground arith)

stage-run :
    (n : Neighbor) (is : List Input) → stage (run n is).state ≤ milestones (stage n.state) is
unfolding run
stage-run n [] = omega arith
stage-run n (i ∷ is) =
    let m = (handle_event (fill i n) i.event i.form i.time).0 in
    omega (
      arith,
      stage-run m is,
      milestones_mono (stage m.state) (advance (stage n.state) i.event) is (
          subst (λ s. stage m.state ≤ advance (stage s) i.event) (fill-state i n)
            (stage-handle_event (fill i n) i.event i.form i.time)),
    )

-- A new neighbor is Full only after a Hello, a two-way Hello, a finished negotiation and a
-- finished exchange, in this order.
pub full_needs_milestones :
    (rid addr : Ipv4Addr) (now : ℕ) (is : List Input)
    → (run (new_neighbor rid addr now) is).state ≡ full
    → milestones 0 is ≡ 4
unfolding new_neighbor
full_needs_milestones rid addr now is h =
    ground (arith, stage-run (new_neighbor rid addr now) is, milestones-le 0 is)

from-IsClean : (n : Neighbor) (is : List Input) → IsClean n → IsClean (run n is)
unfolding run
from-IsClean n [] c = c
from-IsClean n (i ∷ is) c =
    from-IsClean (handle_event (fill i n) i.event i.form i.time).0 is
      (handle_event-IsClean (fill i n) i.event i.form i.time (fill-IsClean i n c))

new-HoldsNothing : (rid addr : Ipv4Addr) (now : ℕ) → HoldsNothing (new_neighbor rid addr now)
unfolding new_neighbor
new-HoldsNothing rid addr now = record {
  requests = refl;
  retransmissions = refl;
  summaries = refl;
  last_packet = refl;
}

-- Whatever the events, a neighbor below ExStart holds no exchange data.
pub run-IsClean :
    (rid addr : Ipv4Addr) (now : ℕ) (is : List Input) → IsClean (run (new_neighbor rid addr now) is)
run-IsClean rid addr now is =
    from-IsClean (new_neighbor rid addr now) is (λ _. new-HoldsNothing rid addr now)
