-- ===== src/Interface/Machine.antt =====
-- The interface record and its state machine: `OspfInterface::handle_event`,
-- `reevaluate_adjacencies`, `run_dr_election` and `should_form_adjacency`
-- (src/proto/interface.rs). Logging is left out, and so is the field `auth_key`, which none of
-- these reads.
pub mod Roles
pub mod Adjacencies
pub mod Candidates
pub mod Kept
use Prim.Native.String.{String}
use ospfd.Common.{
  ℕ, ◌+◌, ◌*◌, Bool, true, false, ◌||◌, Option, none, some, List, [], ◌∷◌, ◌++◌, map, ◌==◌,
  if◌then◌else◌, Ipv4Addr, unspecified,
}
use ospfd.Packet.Hello.{OspfOptions, standard}
use ospfd.Neighbor.Machine
use ospfd.Neighbor.Machine.{Neighbor, NeighborState, two_way, adj_ok, state_ge, second}
use ospfd.Interface.Election.{Candidate, filter, self_candidate, election_loop}

pub data InterfaceState : Type 0 where
  down loopback waiting point_to_point dr_other backup dr : InterfaceState

pub InterfaceState-discrete : Discrete InterfaceState
InterfaceState-discrete = hlevel

pub data NetworkType : Type 0 where
  broadcast point_to_point non_broadcast point_to_multipoint : NetworkType

pub record StaticNeighbor : Type 0 where
  pub address : Ipv4Addr
  pub priority : ℕ

pub data InterfaceEvent : Type 0 where
  interface_up wait_timer backup_seen neighbor_change loop_ind unloop_ind interface_down :
      InterfaceEvent

-- `neighbors` is the HashMap as the list of its entries, in the order of iteration. An Instant is
-- a number of nanoseconds.
pub record OspfInterface : Type 0 where
  pub name : String
  pub sw_if_index : ℕ
  pub address : Ipv4Addr
  pub mask : Ipv4Addr
  pub state : InterfaceState
  pub network_type : NetworkType
  pub area_id : Ipv4Addr
  pub hello_interval : ℕ
  pub dead_interval : ℕ
  pub rxmt_interval : ℕ
  pub cost : ℕ
  pub priority : ℕ
  pub passive : Bool
  pub static_neighbors : List StaticNeighbor
  pub dr : Ipv4Addr
  pub bdr : Ipv4Addr
  pub options : OspfOptions
  pub neighbors : List (Ipv4Addr × Neighbor)
  pub next_hello : ℕ
  pub wait_timer_expiry : Option ℕ
  pub crypto_seq : ℕ
  pub router_id : Ipv4Addr
  pub dd_mtu : ℕ

-- `OspfInterface::new` at the time `now`.
unfoldable pub new_interface :
    String → ℕ → Ipv4Addr → Ipv4Addr → Ipv4Addr → NetworkType → Ipv4Addr → ℕ → OspfInterface
new_interface nm idx addr msk area kind rid now = record {
  name = nm;
  sw_if_index = idx;
  address = addr;
  mask = msk;
  state = InterfaceState.down;
  network_type = kind;
  area_id = area;
  hello_interval = 10;
  dead_interval = 40;
  rxmt_interval = 5;
  cost = 10;
  priority = 1;
  passive = false;
  static_neighbors = [];
  dr = unspecified;
  bdr = unspecified;
  options = standard;
  neighbors = [];
  next_hello = now;
  wait_timer_expiry = none;
  crypto_seq = 0;
  router_id = rid;
  dd_mtu = 1500;
}

abbrev pub at_least_two_way : Ipv4Addr × Neighbor → Bool
at_least_two_way (id, n) = state_ge n.state two_way

abbrev pub candidate_of : Ipv4Addr × Neighbor → Candidate
candidate_of (id, n) = record {
  router_id = n.router_id;
  ip_address = n.address;
  priority = n.priority;
  declared_dr = n.dr;
  declared_bdr = n.bdr;
}

-- The candidates of one iteration: the neighbors in 2-Way or better, then ourselves.
unfoldable pub candidates : OspfInterface → Ipv4Addr × Ipv4Addr → List Candidate
candidates i self =
    map candidate_of (filter at_least_two_way i.neighbors)
    ++ (self_candidate i.router_id i.address i.priority self ∷ [])

abbrev pub role_state : Ipv4Addr → Ipv4Addr × Ipv4Addr → InterfaceState
role_state addr (d, b) =
    if d == addr
    then InterfaceState.dr
    else if b == addr
    then InterfaceState.backup
    else InterfaceState.dr_other

-- One repetition at most: `iteration < 2`.
unfoldable pub elected : OspfInterface → Ipv4Addr × Ipv4Addr
elected i = election_loop 1 (candidates i) i.address (i.dr, i.bdr)

unfoldable pub run_dr_election : OspfInterface → OspfInterface × InterfaceState
run_dr_election i =
    let new = elected i in (record i { dr = new.0; bdr = new.1 }, role_state i.address new)

abbrev pub is_dr_or_backup : InterfaceState → Bool
is_dr_or_backup InterfaceState.dr = true
is_dr_or_backup InterfaceState.backup = true
is_dr_or_backup _ = false

abbrev pub always_adjacent : NetworkType → Bool
always_adjacent NetworkType.point_to_point = true
always_adjacent point_to_multipoint = true
always_adjacent _ = false

-- `should_adj` of `reevaluate_adjacencies`.
unfoldable pub should_adj : OspfInterface → Neighbor → Bool
should_adj i n =
    always_adjacent i.network_type
    || (is_dr_or_backup i.state
        || (n.dr == n.address || (n.bdr == n.address || (n.dr == i.address || n.bdr == i.address))))

unfoldable pub should_form_adjacency : OspfInterface → Neighbor → Bool
should_form_adjacency i n =
    always_adjacent i.network_type
    || (is_dr_or_backup i.state || (n.dr == n.address || n.bdr == n.address))

-- The keys of the map are distinct, so firing `AdjOk?` at each collected id is a pass over the
-- entries.
abbrev pub reevaluate : OspfInterface → ℕ → Ipv4Addr × Neighbor → Ipv4Addr × Neighbor
reevaluate i now (id, n) = (
  id,
  if state_ge n.state two_way then (Machine.handle_event n adj_ok (should_adj i n) now).0 else n,
)

unfoldable pub reevaluate_adjacencies : OspfInterface → ℕ → OspfInterface
reevaluate_adjacencies i now = record i { neighbors = map (reevaluate i now) i.neighbors }

-- `InterfaceUp` in Down.
abbrev come_up : NetworkType → OspfInterface → ℕ → OspfInterface × Option InterfaceState
come_up NetworkType.point_to_point i now = (i, some InterfaceState.point_to_point)
come_up point_to_multipoint i now = (i, some InterfaceState.point_to_point)
come_up _ i now =
    if i.priority == 0
    then (i, some dr_other)
    else (record i { wait_timer_expiry = some (now + i.dead_interval * second) }, some waiting)

abbrev some_second : OspfInterface × InterfaceState → OspfInterface × Option InterfaceState
some_second (i, s) = (i, some s)

-- `match (&self.state, event)`; the state that it proposes is `some`.
unfoldable pub react :
    InterfaceState → InterfaceEvent → OspfInterface → ℕ → OspfInterface × Option InterfaceState
react InterfaceState.down interface_up i now = come_up i.network_type i now
react waiting wait_timer i now =
    some_second (run_dr_election (record i { wait_timer_expiry = none }))
react waiting backup_seen i now =
    some_second (run_dr_election (record i { wait_timer_expiry = none }))
react dr_other neighbor_change i now = some_second (run_dr_election i)
react backup neighbor_change i now = some_second (run_dr_election i)
react InterfaceState.dr neighbor_change i now = some_second (run_dr_election i)
react InterfaceState.down loop_ind i now = (i, some loopback)
react loopback unloop_ind i now = (i, some InterfaceState.down)
react _ interface_down i now = (
  record i { neighbors = []; dr = unspecified; bdr = unspecified; wait_timer_expiry = none },
  some InterfaceState.down,
)
react _ _ i now = (i, none)

abbrev pub takes_part : InterfaceState → Bool
takes_part InterfaceState.dr = true
takes_part backup = true
takes_part dr_other = true
takes_part _ = false

-- `new != old_state`
abbrev pub code : InterfaceState → ℕ
code InterfaceState.down = 0
code loopback = 1
code waiting = 2
code InterfaceState.point_to_point = 3
code dr_other = 4
code backup = 5
code InterfaceState.dr = 6

abbrev pub commit :
    InterfaceState
    → ℕ
    → OspfInterface × Option InterfaceState
    → OspfInterface × Option InterfaceState
commit old now (i, none) = (i, none)
commit old now (i, some new) =
    if code new == code old
    then (i, none)
    else let changed = record i { state = new } in
      (if takes_part new then reevaluate_adjacencies changed now else changed, some new)

unfoldable pub handle_event :
    OspfInterface → InterfaceEvent → ℕ → OspfInterface × Option InterfaceState
handle_event i e now = commit i.state now (react i.state e i now)
