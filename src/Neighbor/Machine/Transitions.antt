-- ===== src/Neighbor/Machine/Transitions.antt =====
-- `handle_event` against the transition table of RFC 2328 section 10.3, as far as the daemon
-- follows it.
use ospfd.Common.{ℕ, ◌≤◌, ◌≡◌, ◌≢◌, refl, arith, Bool, true, false, some, List, [], ◌∷◌}
use mathlib.Core.Path.{subst}
use mathlib.Core.Logic.{◌↔◌}
use mathlib.Core.Option.{some-injective}
use mathlib.Core.Option
use ospfd.Packet.Lsa.Header.{LsaKey}
use ospfd.Neighbor.Machine.{
  NeighborState, down, attempt, init, two_way, ex_start, exchange, loading, full, rank,
  NeighborEvent, hello_received, two_way_received, negotiation_done, exchange_done, bad_ls_req,
  loading_done, adj_ok, seq_number_mismatch, inactivity_timer, one_way, link_down, Neighbor,
  handle_event,
}

-- The moves from a state: by which event, with which adjacency decision and which requests
-- outstanding, and where to.
pub data Moves : NeighborState → NeighborEvent → Bool → List LsaKey → NeighborState → Type 0 where
  heard_down : (f : Bool) (r : List LsaKey) → Moves down hello_received f r init
  heard_attempt : (f : Bool) (r : List LsaKey) → Moves attempt hello_received f r init
  adjacent : (r : List LsaKey) → Moves init two_way_received true r ex_start
  not_adjacent : (r : List LsaKey) → Moves init two_way_received false r two_way
  becomes_adjacent : (r : List LsaKey) → Moves two_way adj_ok true r ex_start
  negotiated : (f : Bool) (r : List LsaKey) → Moves ex_start negotiation_done f r exchange
  nothing_to_load : (f : Bool) → Moves exchange exchange_done f [] full
  something_to_load :
      (f : Bool) (k : LsaKey) (r : List LsaKey) → Moves exchange exchange_done f (k ∷ r) loading
  loaded : (f : Bool) (r : List LsaKey) → Moves loading loading_done f r full
  mismatch :
      (s : NeighborState) (f : Bool) (r : List LsaKey)
      → 5 ≤ rank s
      → Moves s seq_number_mismatch f r ex_start
  bad_request :
      (s : NeighborState) (f : Bool) (r : List LsaKey)
      → 5 ≤ rank s
      → Moves s bad_ls_req f r ex_start
  no_more_adjacent :
      (s : NeighborState) (r : List LsaKey) → 4 ≤ rank s → Moves s adj_ok false r two_way
  lost_two_way :
      (s : NeighborState) (f : Bool) (r : List LsaKey) → 3 ≤ rank s → Moves s one_way f r init
  timed_out :
      (s : NeighborState) (f : Bool) (r : List LsaKey)
      → s ≢ down
      → Moves s inactivity_timer f r down
  link_lost :
      (s : NeighborState) (f : Bool) (r : List LsaKey) → s ≢ down → Moves s link_down f r down

move_made :
    (n : Neighbor) (f : Bool) (now : ℕ) {s t : NeighborState} {e : NeighborEvent} {r : List LsaKey}
    → n.state ≡ s
    → n.ls_request_list ≡ r
    → Moves s e f r t
    → ((handle_event n e f now).1 ≡ some t) × ((handle_event n e f now).0.state ≡ t)
unfolding handle_event
move_made n f now p q (heard_down _ _) = ground arith
move_made n f now p q (heard_attempt _ _) = ground arith
move_made n f now p q (adjacent _) = ground arith
move_made n f now p q (not_adjacent _) = ground arith
move_made n f now p q (becomes_adjacent _) = ground arith
move_made n f now p q (negotiated _ _) = ground arith
move_made n f now p q (nothing_to_load _) = ground arith
move_made n f now p q (something_to_load _ _ _) = ground arith
move_made n f now p q (loaded _ _) = ground arith
move_made n f now p q (mismatch s _ _ h) = ground arith
move_made n f now p q (bad_request s _ _ h) = ground arith
move_made n f now p q (no_more_adjacent s _ h) = ground arith
move_made n f now p q (lost_two_way s _ _ h) = ground arith
move_made n f now p q (timed_out s _ _ h) = ground arith
move_made n f now p q (link_lost s _ _ h) = ground arith

moved :
    {s : NeighborState} {e : NeighborEvent} {f : Bool} {r : List LsaKey} {t u : NeighborState}
    → Moves s e f r u
    → some u ≡ some t
    → Moves s e f r t
moved {s} {e} {f} {r} {t} {u} m h = subst (λ x. Moves s e f r x) (some-injective u t h) m

move_needed :
    (n : Neighbor) (s : NeighborState) (e : NeighborEvent) (f : Bool) (r : List LsaKey) (now : ℕ)
    {t : NeighborState}
    → (handle_event (record n { state = s; ls_request_list = r }) e f now).1 ≡ some t
    → Moves s e f r t
unfolding handle_event
move_needed n down hello_received f r now h = moved (heard_down f r) h
move_needed n attempt hello_received f r now h = moved (heard_attempt f r) h
move_needed n init two_way_received true r now h = moved (adjacent r) h
move_needed n init two_way_received false r now h = moved (not_adjacent r) h
move_needed n two_way adj_ok true r now h = moved (becomes_adjacent r) h
move_needed n ex_start negotiation_done f r now h = moved (negotiated f r) h
move_needed n exchange exchange_done f [] now h = moved (nothing_to_load f) h
move_needed n exchange exchange_done f (k ∷ r) now h = moved (something_to_load f k r) h
move_needed n loading loading_done f r now h = moved (loaded f r) h
move_needed n exchange seq_number_mismatch f r now h = moved (mismatch exchange f r (omega arith)) h
move_needed n exchange bad_ls_req f r now h = moved (bad_request exchange f r (omega arith)) h
move_needed n loading seq_number_mismatch f r now h = moved (mismatch loading f r (omega arith)) h
move_needed n loading bad_ls_req f r now h = moved (bad_request loading f r (omega arith)) h
move_needed n full seq_number_mismatch f r now h = moved (mismatch full f r (omega arith)) h
move_needed n full bad_ls_req f r now h = moved (bad_request full f r (omega arith)) h
move_needed n ex_start adj_ok false r now h = moved (no_more_adjacent ex_start r (omega arith)) h
move_needed n exchange adj_ok false r now h = moved (no_more_adjacent exchange r (omega arith)) h
move_needed n loading adj_ok false r now h = moved (no_more_adjacent loading r (omega arith)) h
move_needed n full adj_ok false r now h = moved (no_more_adjacent full r (omega arith)) h
move_needed n two_way one_way f r now h = moved (lost_two_way two_way f r (omega arith)) h
move_needed n ex_start one_way f r now h = moved (lost_two_way ex_start f r (omega arith)) h
move_needed n exchange one_way f r now h = moved (lost_two_way exchange f r (omega arith)) h
move_needed n loading one_way f r now h = moved (lost_two_way loading f r (omega arith)) h
move_needed n full one_way f r now h = moved (lost_two_way full f r (omega arith)) h
move_needed n attempt inactivity_timer f r now h = moved (timed_out attempt f r (λ p. cc)) h
move_needed n attempt link_down f r now h = moved (link_lost attempt f r (λ p. cc)) h
move_needed n init inactivity_timer f r now h = moved (timed_out init f r (λ p. cc)) h
move_needed n init link_down f r now h = moved (link_lost init f r (λ p. cc)) h
move_needed n two_way inactivity_timer f r now h = moved (timed_out two_way f r (λ p. cc)) h
move_needed n two_way link_down f r now h = moved (link_lost two_way f r (λ p. cc)) h
move_needed n ex_start inactivity_timer f r now h = moved (timed_out ex_start f r (λ p. cc)) h
move_needed n ex_start link_down f r now h = moved (link_lost ex_start f r (λ p. cc)) h
move_needed n exchange inactivity_timer f r now h = moved (timed_out exchange f r (λ p. cc)) h
move_needed n exchange link_down f r now h = moved (link_lost exchange f r (λ p. cc)) h
move_needed n loading inactivity_timer f r now h = moved (timed_out loading f r (λ p. cc)) h
move_needed n loading link_down f r now h = moved (link_lost loading f r (λ p. cc)) h
move_needed n full inactivity_timer f r now h = moved (timed_out full f r (λ p. cc)) h
move_needed n full link_down f r now h = moved (link_lost full f r (λ p. cc)) h
move_needed n _ _ _ _ now h = cc

-- `handle_event` reports a new state exactly where the table has a move to it.
pub handle_event_iff_Moves :
    (n : Neighbor) (e : NeighborEvent) (f : Bool) (now : ℕ) (t : NeighborState)
    → ((handle_event n e f now).1 ≡ some t) ↔ Moves n.state e f n.ls_request_list t
handle_event_iff_Moves n e f now t =
    (move_needed n n.state e f n.ls_request_list now, λ m. (move_made n f now refl refl m).0)

-- The state that is stored is the one that is reported, and without a report it is the old one.
pub stored-state :
    (n : Neighbor) (e : NeighborEvent) (f : Bool) (now : ℕ)
    → (handle_event n e f now).0.state ≡ Option.get_or (handle_event n e f now).1 n.state
unfolding handle_event
stored-state n e f now = ground arith
