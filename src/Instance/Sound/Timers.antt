-- ===== src/Instance/Sound/Timers.antt =====
-- The timers, the tick, the changes of interfaces and the purge keep the instance sound.
use ospfd.Common.{
  ℕ, ◌≡◌, refl, Bool, false, not, ◌&&◌, ◌||◌, ◌==◌, Option, none, some, List, [], ◌∷◌, All,
  Ipv4Addr, Bool-cases, inl, inr, if◌then◌else◌,
}
use ospfd.Neighbor.Machine as Peer
use ospfd.Neighbor.Machine.{Neighbor, inactivity_timer, state_ge, two_way}
use ospfd.Interface.Machine.{
  OspfInterface, InterfaceState, interface_up, interface_down, neighbor_change, code,
}
use ospfd.Area.{Area}
use ospfd.Lsdb.Store.Install.{flush_max_age-IsValid}
use ospfd.Spf.Table.{get, put}
use ospfd.Instance.State.{OspfInstance}
use ospfd.Instance.Timers.{
  expire_at, expire, expire_all, expired, check_interface, check_interfaces, refresh_found,
  refresh_in,
}
use ospfd.Instance.Describe.{build_dd}
use ospfd.Instance.Tick.{
  dd_pending, pending_dds_on, pending_dds, lsr_due, pending_lsrs_on, pending_lsrs,
}
use ospfd.Instance.Maintenance.{purge_areas, purge}
use ospfd.Instance.Sound.{
  IsQuiet, HasQuietNeighbors, HasValidDatabase, Values, put-Values, get-Values, IsSound,
}
use ospfd.Instance.Sound.Neighbors.{handle_event-IsQuiet, event-Values}

pub with_interfaces-IsSound :
    (inst : OspfInstance) (is : List OspfInterface)
    → All HasQuietNeighbors is
    → IsSound inst
    → IsSound (record inst { interfaces = is })
with_interfaces-IsSound inst is q s = record {
  neighbors = q;
  areas = s.areas;
  external = s.external;
}

expire-Values :
    (i : OspfInterface) (id : Ipv4Addr) (now : ℕ)
    → HasQuietNeighbors i
    → HasQuietNeighbors (expire i id now)
unfolding expire
expire-Values i id now q = by_found (get id i.neighbors) refl
  where
    by_found :
        (o : Option Neighbor) → get id i.neighbors ≡ o → HasQuietNeighbors (expire_at i id now o)
    by_found none e = q
    by_found (some n) e =
        let dead = (Peer.handle_event n inactivity_timer false now).0 in
        let next = record i { neighbors = put id dead i.neighbors } in
        let stored =
          put-Values IsQuiet id dead i.neighbors
            (handle_event-IsQuiet n inactivity_timer false now
              (get-Values IsQuiet id n i.neighbors q e))
            q in
        elim (Bool-cases (state_ge n.state two_way && not (state_ge dead.state two_way))) [
          | inl crossed ↦ rw crossed (event-Values next neighbor_change now stored)
          | inr stays ↦ rw stays stored
        ]

expire_all-Values :
    (i : OspfInterface) (ids : List Ipv4Addr) (now : ℕ)
    → HasQuietNeighbors i
    → HasQuietNeighbors (expire_all i ids now)
unfolding expire_all
expire_all-Values i [] now q = q
expire_all-Values i (id ∷ ids) now q =
    expire_all-Values (expire i id now) ids now (expire-Values i id now q)

pub check_interfaces-All :
    (is : List OspfInterface) (now : ℕ)
    → All HasQuietNeighbors is
    → All HasQuietNeighbors (check_interfaces is now)
unfolding check_interface
check_interfaces-All [] now q = tt
check_interfaces-All (i ∷ is) now q = (
  expire_all-Values i (expired i.dead_interval now i.neighbors) now q.0,
  check_interfaces-All is now q.1,
)

pending_dds_on-Values :
    (rid : Ipv4Addr) (i : OspfInterface) (elapsed now : ℕ) (ns : List (Ipv4Addr × Neighbor))
    → Values IsQuiet ns
    → Values IsQuiet (pending_dds_on rid i elapsed now ns).0
unfolding pending_dds_on build_dd
pending_dds_on-Values rid i elapsed now [] q = tt
pending_dds_on-Values rid i elapsed now ((id, n) ∷ ns) q = elim (Bool-cases (dd_pending now n)) [
  | inl due ↦ rw due (
    λ h.
        let k = q.0 h in
        record {
          requests = k.requests;
          retransmissions = k.retransmissions;
          summaries = k.summaries;
        },
    pending_dds_on-Values rid i elapsed now ns q.1,
  )
  | inr quiet ↦ rw quiet (q.0, pending_dds_on-Values rid i elapsed now ns q.1)
]

pub pending_dds-All :
    (rid : Ipv4Addr) (is : List OspfInterface) (elapsed now : ℕ)
    → All HasQuietNeighbors is
    → All HasQuietNeighbors (pending_dds rid is elapsed now).0
unfolding pending_dds
pending_dds-All rid [] elapsed now q = tt
pending_dds-All rid (i ∷ is) elapsed now q = (
  pending_dds_on-Values rid i elapsed now i.neighbors q.0,
  pending_dds-All rid is elapsed now q.1,
)

pending_lsrs_on-Values :
    (rid : Ipv4Addr) (i : OspfInterface) (now : ℕ) (ns : List (Ipv4Addr × Neighbor))
    → Values IsQuiet ns
    → Values IsQuiet (pending_lsrs_on rid i now ns).0
unfolding pending_lsrs_on
pending_lsrs_on-Values rid i now [] q = tt
pending_lsrs_on-Values rid i now ((id, n) ∷ ns) q =
    elim (Bool-cases (lsr_due i.rxmt_interval now n)) [
      | inl due ↦ rw due (
        λ h.
            let k = q.0 h in
            record {
              requests = k.requests;
              retransmissions = k.retransmissions;
              summaries = k.summaries;
            },
        pending_lsrs_on-Values rid i now ns q.1,
      )
      | inr quiet ↦ rw quiet (q.0, pending_lsrs_on-Values rid i now ns q.1)
    ]

pub pending_lsrs-All :
    (rid : Ipv4Addr) (is : List OspfInterface) (now : ℕ)
    → All HasQuietNeighbors is
    → All HasQuietNeighbors (pending_lsrs rid is now).0
unfolding pending_lsrs
pending_lsrs-All rid [] now q = tt
pending_lsrs-All rid (i ∷ is) now q =
    (pending_lsrs_on-Values rid i now i.neighbors q.0, pending_lsrs-All rid is now q.1)

refresh_found-Values :
    (i : OspfInterface) (addr mask : Ipv4Addr) (oper_up : Bool) (now : ℕ)
    → HasQuietNeighbors i
    → HasQuietNeighbors (refresh_found i addr mask oper_up now).0
unfolding refresh_found
refresh_found-Values i addr mask oper_up now q =
    let moved = not (i.address == addr) || not (i.mask == mask) in
    let was_up = not (code i.state == code InterfaceState.down) in
    let next = if moved then record i { address = addr; mask = mask } else i in
    let kept : HasQuietNeighbors next = elim (Bool-cases moved) [
      | inl m ↦ rw m q
      | inr same ↦ rw same q
    ] in
    elim (Bool-cases (oper_up && not was_up)) [
      | inl up ↦ rw up (event-Values next interface_up now kept)
      | inr not_up ↦ elim (Bool-cases (not oper_up && was_up)) [
        | inl down ↦ rw (not_up, down) (event-Values next interface_down now kept)
        | inr stays ↦ rw (not_up, stays) kept
      ]
    ]

pub refresh_in-All :
    (is : List OspfInterface) (sw_if_index : ℕ) (addr mask : Ipv4Addr) (oper_up : Bool) (now : ℕ)
    → All HasQuietNeighbors is
    → All HasQuietNeighbors (refresh_in is sw_if_index addr mask oper_up now).0
unfolding refresh_in
refresh_in-All [] sw addr mask oper_up now q = tt
refresh_in-All (i ∷ is) sw addr mask oper_up now q = elim (Bool-cases (i.sw_if_index == sw)) [
  | inl found ↦ rw found (refresh_found-Values i addr mask oper_up now q.0, q.1)
  | inr other ↦ rw other (q.0, refresh_in-All is sw addr mask oper_up now q.1)
]

purge_areas-Values :
    (as_ : List (Ipv4Addr × Area)) (now : ℕ)
    → Values HasValidDatabase as_
    → Values HasValidDatabase (purge_areas as_ now).0
unfolding purge_areas
purge_areas-Values [] now v = tt
purge_areas-Values ((k, a) ∷ as_) now v =
    (flush_max_age-IsValid a.lsdb now v.0, purge_areas-Values as_ now v.1)

pub purge-IsSound : (inst : OspfInstance) (now : ℕ) → IsSound inst → IsSound (purge inst now).0
unfolding purge
purge-IsSound inst now s = record {
  neighbors = s.neighbors;
  areas = purge_areas-Values inst.areas now s.areas;
  external = flush_max_age-IsValid inst.as_external_lsdb now s.external;
}
