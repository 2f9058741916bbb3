-- ===== src/Instance/Sound/Loop.antt =====
-- The ticks, the packets that are sent and the interfaces that are resolved keep the neighbors quiet.
use Prim.Native.String.{String}
use ospfd.Common.{
  ℕ, arith, Bool-cases, inl, inr, Option, none, some, List, [], ◌∷◌, map, All, ◌&&◌, ◌==◌, Ipv4Addr,
}
use ospfd.Interface.Machine.{OspfInterface, wait_timer, interface_up}
use ospfd.Instance.State.{Response}
use ospfd.Instance.Maintenance.Loop.{
  hello_sent, is_past, waited, count_on, send_each, resolved, resolve_in, same_name,
}
use ospfd.Instance.Sound.{HasQuietNeighbors}
use ospfd.Instance.Sound.Neighbors.{event-Values}

pub map-All :
    (f : OspfInterface → OspfInterface)
    → ((i : OspfInterface) → HasQuietNeighbors i → HasQuietNeighbors (f i))
    → (is : List OspfInterface) → All HasQuietNeighbors is
    → All HasQuietNeighbors (map f is)
map-All f h [] q = tt
map-All f h (i ∷ is) q = (h i q.0, map-All f h is q.1)

pub hello_sent-Values :
    (now : ℕ) (i : OspfInterface) → HasQuietNeighbors i → HasQuietNeighbors (hello_sent now i)
unfolding hello_sent
hello_sent-Values now i q = ground (arith, q)

pub waited-Values :
    (now : ℕ) (i : OspfInterface) → HasQuietNeighbors i → HasQuietNeighbors (waited now i)
unfolding waited
waited-Values now i q = elim (Bool-cases (is_past now i.wait_timer_expiry)) [
  | inl past ↦ rw past (event-Values i wait_timer now q)
  | inr early ↦ rw early q
]

count_on-All :
    (sw_if_index : ℕ) (is : List OspfInterface)
    → All HasQuietNeighbors is
    → All HasQuietNeighbors (count_on sw_if_index is)
unfolding count_on
count_on-All sw_if_index [] q = tt
count_on-All sw_if_index (i ∷ is) q = elim (Bool-cases (i.sw_if_index == sw_if_index)) [
  | inl found ↦ rw found (q.0, q.1)
  | inr other ↦ rw other (q.0, count_on-All sw_if_index is q.1)
]

pub send_each-All :
    (rs : List Response) (is : List OspfInterface)
    → All HasQuietNeighbors is
    → All HasQuietNeighbors (send_each rs is)
unfolding send_each
send_each-All [] is q = q
send_each-All ((sw_if_index, _, _) ∷ rs) is q =
    send_each-All rs (count_on sw_if_index is) (count_on-All sw_if_index is q)

resolved-Values :
    (i : OspfInterface) (sw_if_index : ℕ) (addr_mask : Option (Ipv4Addr × Ipv4Addr)) (mtu now : ℕ)
    → HasQuietNeighbors i
    → HasQuietNeighbors (resolved i sw_if_index addr_mask mtu now)
unfolding resolved
resolved-Values i sw_if_index none mtu now q =
    event-Values (record i { sw_if_index = sw_if_index; dd_mtu = mtu }) interface_up now q
resolved-Values i sw_if_index (some (addr, mask)) mtu now q =
    event-Values (record i { address = addr; mask = mask; sw_if_index = sw_if_index; dd_mtu = mtu })
      interface_up now q

pub resolve_in-All :
    (is : List OspfInterface) (name : String) (sw_if_index : ℕ)
    (addr_mask : Option (Ipv4Addr × Ipv4Addr)) (mtu now : ℕ)
    → All HasQuietNeighbors is
    → All HasQuietNeighbors (resolve_in is name sw_if_index addr_mask mtu now)
unfolding resolve_in
resolve_in-All [] name sw_if_index addr_mask mtu now q = tt
resolve_in-All (i ∷ is) name sw_if_index addr_mask mtu now q =
    elim (Bool-cases (same_name i.name name && i.sw_if_index == 0)) [
      | inl found ↦ rw found (resolved-Values i sw_if_index addr_mask mtu now q.0, q.1)
      | inr other ↦ rw other (q.0, resolve_in-All is name sw_if_index addr_mask mtu now q.1)
    ]
