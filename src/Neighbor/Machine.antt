-- ===== src/Neighbor/Machine.antt =====
-- States, events and the neighbor record, and what one event does.
pub mod Transitions
pub mod Invariant
pub mod Progress
use ospfd.Common.{
  ℕ, Bool, true, false, ◌&&◌, Option, none, some, List, [], ◌∷◌, ◌-◌, ◌*◌, leb, not, if◌then◌else◌,
  Ipv4Addr, unspecified,
}
use mathlib.Core.Logic.{ite}
use ospfd.Packet.Exchange.{DbDescPacket}
use ospfd.Packet.Lsa.Header.{LsaKey, LsaHeader}

pub data NeighborState : Type 0 where
  down attempt init two_way ex_start exchange loading full : NeighborState

pub NeighborState-discrete : Discrete NeighborState
NeighborState-discrete = hlevel

-- The derived order of the states is that of their declaration.
abbrev pub rank : NeighborState → ℕ
rank down = 0
rank attempt = 1
rank init = 2
rank two_way = 3
rank ex_start = 4
rank exchange = 5
rank loading = 6
rank full = 7

abbrev pub state_ge : NeighborState → NeighborState → Bool
state_ge s t = leb (rank t) (rank s)

-- `==` on states.
abbrev pub state_eq : NeighborState → NeighborState → Bool
state_eq s t = leb (rank t) (rank s) && leb (rank s) (rank t)

unfoldable pub is_two_way_or_better : NeighborState → Bool
is_two_way_or_better s = state_ge s two_way

unfoldable pub is_full : NeighborState → Bool
is_full s = state_eq s full

pub data NeighborEvent : Type 0 where
  hello_received two_way_received negotiation_done exchange_done bad_ls_req : NeighborEvent
  loading_done adj_ok seq_number_mismatch inactivity_timer one_way link_down : NeighborEvent

-- An Instant is a number of nanoseconds.
pub record Neighbor : Type 0 where
  pub router_id : Ipv4Addr
  pub address : Ipv4Addr
  pub state : NeighborState
  pub priority : ℕ
  pub dr : Ipv4Addr
  pub bdr : Ipv4Addr
  pub options : ℕ
  pub dd_seq_number : ℕ
  pub is_master : Bool
  pub sent_m_clear : Bool
  pub last_dd : Option DbDescPacket
  pub ls_request_list : List LsaKey
  pub ls_retransmit_list : List LsaHeader
  pub db_summary_list : List LsaHeader
  pub last_heard : ℕ
  pub last_dd_sent : ℕ
  pub last_lsr_sent : ℕ

abbrev pub second : ℕ
second = 1000000000

-- `Neighbor::new` at the time `now`. Times are counted from a point at least 60 seconds before, so
-- that the times in the past that it stores are no less than 0.
unfoldable pub new_neighbor : Ipv4Addr → Ipv4Addr → ℕ → Neighbor
new_neighbor rid addr now = record {
  router_id = rid;
  address = addr;
  state = down;
  priority = 0;
  dr = unspecified;
  bdr = unspecified;
  options = 0;
  dd_seq_number = 0;
  is_master = false;
  sent_m_clear = false;
  last_dd = none;
  ls_request_list = [];
  ls_retransmit_list = [];
  db_summary_list = [];
  last_heard = now;
  last_dd_sent = now - 10 * second;
  last_lsr_sent = now - 60 * second;
}

unfoldable pub clear_lists : Neighbor → Neighbor
clear_lists n = record n {
  ls_request_list = [];
  ls_retransmit_list = [];
  db_summary_list = [];
  last_dd = none;
}

abbrev pub heard : Neighbor → ℕ → Neighbor
heard n now = record n { last_heard = now }

abbrev is_empty {ℓ} : {A : Type ℓ} → List A → Bool
is_empty [] = true
is_empty (_ ∷ _) = false

-- The guarded arms `(s, event) if *s >= …` and the catch-all arms behind the exact ones: what an
-- event does in a state that no exact arm takes. The state that the match proposes is `some`.
abbrev guarded : NeighborEvent → Neighbor → Bool → ℕ → Neighbor × Option NeighborState
guarded seq_number_mismatch n form now =
    if state_ge n.state ex_start then (clear_lists n, some ex_start) else (n, none)
guarded bad_ls_req n form now =
    if state_ge n.state ex_start then (clear_lists n, some ex_start) else (n, none)
guarded adj_ok n form now =
    if state_ge n.state ex_start
    then if not form then (clear_lists n, some two_way) else (n, none)
    else (n, none)
guarded one_way n form now =
    if state_ge n.state two_way then (clear_lists n, some init) else (n, none)
guarded inactivity_timer n form now = (clear_lists n, some down)
guarded link_down n form now = (clear_lists n, some down)
guarded hello_received n form now = (heard n now, none)
guarded _ n form now = (n, none)

-- `match (&self.state, event)`
abbrev pub react :
    NeighborState → NeighborEvent → Neighbor → Bool → ℕ → Neighbor × Option NeighborState
react down hello_received n form now = (heard n now, some init)
react attempt hello_received n form now = (heard n now, some init)
react init two_way_received n form now = (n, if form then some ex_start else some two_way)
react two_way adj_ok n form now = (n, if form then some ex_start else none)
react ex_start negotiation_done n form now = (n, some exchange)
react exchange exchange_done n form now =
    (n, if is_empty n.ls_request_list then some full else some loading)
react loading loading_done n form now = (n, some full)
react _ e n form now = guarded e n form now

-- `if let Some(new) = new_state { if new != old_state { … } }`
abbrev commit : NeighborState → Neighbor × Option NeighborState → Neighbor × Option NeighborState
commit old (n, none) = (n, none)
commit old (n, some new) =
    if state_eq new old then (n, none) else (record n { state = new }, some new)

unfoldable pub handle_event : Neighbor → NeighborEvent → Bool → ℕ → Neighbor × Option NeighborState
unfolding clear_lists
handle_event n e form now = commit n.state (react n.state e n form now)
