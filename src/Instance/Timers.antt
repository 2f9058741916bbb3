-- ===== src/Instance/Timers.antt =====
-- The timers of the instance: `schedule_spf`, `spf_due`, `check_neighbor_timers`,
-- `refresh_interface_state` and `as_external_refresh_due` (src/instance.rs). Logging is left out.
pub mod Throttle
pub mod Silence
use ospfd.Common.{
  ℕ, ◌+◌, ◌-◌, ◌*◌, ◌/◌, ◌%◌, ◌^◌, min, Bool, true, false, not, ◌&&◌, ◌||◌, Option, none, some,
  List, [], ◌∷◌, leb, ◌==◌, if◌then◌else◌, Ipv4Addr,
}
use ospfd.Neighbor.Machine as Peer
use ospfd.Neighbor.Machine.{
  Neighbor, NeighborState, two_way, inactivity_timer, state_ge, state_eq, second,
}
use ospfd.Interface.Machine as Link
use ospfd.Interface.Machine.{
  OspfInterface, InterfaceState, InterfaceEvent, interface_up, interface_down, neighbor_change,
  code,
}
use ospfd.Lsdb.Store.{self_originated_due_for_refresh}
use ospfd.Spf.Table.{get, put}
use ospfd.Instance.State.{OspfInstance}

-- Nanoseconds.
abbrev pub millisecond : ℕ
millisecond = 1000000

-- `hold`, in milliseconds: the product wraps at 64 bits.
unfoldable pub hold_ms : OspfInstance → ℕ
hold_ms inst =
    min (inst.spf_holdtime_ms * 2 ^ min inst.spf_hold_multiplier 10 % 2 ^ 64)
      inst.spf_max_holdtime_ms

-- The delay in milliseconds, and the multiplier that is stored; `duration_since` is zero if the
-- last run is in the future.
unfoldable pub spf_delay : OspfInstance → ℕ → ℕ × ℕ
spf_delay inst now = elim (inst.spf_last_run) [
  | none ↦ (inst.spf_delay_ms, inst.spf_hold_multiplier)
  | some last_run ↦
      let since_last = (now - last_run) / millisecond in
      if leb (hold_ms inst) since_last
      then (inst.spf_delay_ms, 0)
      else (hold_ms inst - since_last, min (inst.spf_hold_multiplier + 1) (2 ^ 32 - 1))
]

abbrev pub earlier : Option ℕ → ℕ → ℕ
earlier none t = t
earlier (some existing) t = if leb existing t then existing else t

unfoldable pub schedule_spf : OspfInstance → ℕ → OspfInstance
schedule_spf inst now =
    let d = spf_delay inst now in
    record inst {
      spf_hold_multiplier = d.1;
      spf_scheduled = some (earlier inst.spf_scheduled (now + d.0 * millisecond));
    }

unfoldable pub spf_due : OspfInstance → Option ℕ
spf_due inst = inst.spf_scheduled

-- `last_heard.elapsed() >= dead_duration`, of a neighbor that is not Down.
unfoldable pub is_expired : ℕ → ℕ → Neighbor → Bool
is_expired dead_interval now n =
    not (state_eq n.state NeighborState.down) && leb (dead_interval * second) (now - n.last_heard)

unfoldable pub expired : ℕ → ℕ → List (Ipv4Addr × Neighbor) → List Ipv4Addr
expired dead_interval now [] = []
expired dead_interval now ((id, n) ∷ ns) =
    let rest = expired dead_interval now ns in
    if is_expired dead_interval now n then id ∷ rest else rest

-- One expired neighbor: `InactivityTimer`, and `NeighborChange` if it was in 2-Way or better.
abbrev pub expire_at : OspfInterface → Ipv4Addr → ℕ → Option Neighbor → OspfInterface
expire_at i id now none = i
expire_at i id now (some n) =
    let dead = (Peer.handle_event n inactivity_timer false now).0 in
    let next = record i { neighbors = put id dead i.neighbors } in
    if state_ge n.state two_way && not (state_ge dead.state two_way)
    then (Link.handle_event next neighbor_change now).0
    else next

unfoldable pub expire : OspfInterface → Ipv4Addr → ℕ → OspfInterface
expire i id now = expire_at i id now (get id i.neighbors)

unfoldable pub expire_all : OspfInterface → List Ipv4Addr → ℕ → OspfInterface
expire_all i [] now = i
expire_all i (id ∷ ids) now = expire_all (expire i id now) ids now

unfoldable pub check_interface : OspfInterface → ℕ → OspfInterface
check_interface i now = expire_all i (expired i.dead_interval now i.neighbors) now

abbrev any_expired : ℕ → List OspfInterface → Bool
any_expired now [] = false
any_expired now (i ∷ is) = elim (expired i.dead_interval now i.neighbors) [
  | [] ↦ any_expired now is
  | _ ∷ _ ↦ true
]

abbrev pub check_interfaces : List OspfInterface → ℕ → List OspfInterface
check_interfaces [] now = []
check_interfaces (i ∷ is) now = check_interface i now ∷ check_interfaces is now

-- The answer is whether any timer expired.
unfoldable pub check_neighbor_timers : OspfInstance → ℕ → OspfInstance × Bool
check_neighbor_timers inst now = (
  record inst { interfaces = check_interfaces inst.interfaces now },
  any_expired now inst.interfaces,
)

abbrev is_empty : {A : Type 0} → List A → Bool
is_empty [] = true
is_empty (_ ∷ _) = false

unfoldable pub as_external_refresh_due : OspfInstance → ℕ → Bool
as_external_refresh_due inst now =
    not (is_empty (self_originated_due_for_refresh inst.as_external_lsdb now))

-- `refresh_interface_state` on the interface that it finds.
unfoldable pub refresh_found : OspfInterface → Ipv4Addr → Ipv4Addr → Bool → ℕ → OspfInterface × Bool
refresh_found i new_address new_mask oper_up now =
    let moved = not (i.address == new_address) || not (i.mask == new_mask) in
    let next = if moved then record i { address = new_address; mask = new_mask } else i in
    let was_up = not (code i.state == code InterfaceState.down) in
    if oper_up && not was_up
    then ((Link.handle_event next interface_up now).0, true)
    else if not oper_up && was_up
    then ((Link.handle_event next interface_down now).0, true)
    else (next, moved)

-- The first interface with the index.
unfoldable pub refresh_in :
    List OspfInterface → ℕ → Ipv4Addr → Ipv4Addr → Bool → ℕ → List OspfInterface × Bool
refresh_in [] sw_if_index new_address new_mask oper_up now = ([], false)
refresh_in (i ∷ is) sw_if_index new_address new_mask oper_up now =
    let later = refresh_in is sw_if_index new_address new_mask oper_up now in
    let found = refresh_found i new_address new_mask oper_up now in
    if i.sw_if_index == sw_if_index then (found.0 ∷ is, found.1) else (i ∷ later.0, later.1)

unfoldable pub refresh_interface_state :
    OspfInstance → ℕ → Ipv4Addr → Ipv4Addr → Bool → ℕ → OspfInstance × Bool
refresh_interface_state inst sw_if_index new_address new_mask oper_up now =
    let found = refresh_in inst.interfaces sw_if_index new_address new_mask oper_up now in
    (record inst { interfaces = found.0 }, found.1)
