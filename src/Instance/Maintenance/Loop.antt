-- ===== src/Instance/Maintenance/Loop.antt =====
-- What the loop of an instance does to it between the calls of its methods: the Hello tick, the
-- responses that are sent and an interface that is resolved (src/main.rs). The packets are encoded
-- and sent by code that changes nothing of the instance.
use Prim.Native.Nat.{Ordering}
use Prim.Native.String as Text
use Prim.Native.String.{String}
use ospfd.Common.{
  ℕ, ◌+◌, ◌*◌, ◌%◌, ◌^◌, Bool, true, false, ◌&&◌, Option, none, some, List, [], ◌∷◌, map, leb, ◌==◌,
  if◌then◌else◌, Ipv4Addr,
}
use ospfd.Neighbor.Machine.{second}
use ospfd.Interface.Machine as Link
use ospfd.Interface.Machine.{OspfInterface, InterfaceState, wait_timer, interface_up, code}
use ospfd.Instance.State.{OspfInstance, Response}

-- `iface.crypto_seq = iface.crypto_seq.wrapping_add(1)`
abbrev pub count_packet : OspfInterface → OspfInterface
count_packet i = record i { crypto_seq = (i.crypto_seq + 1) % 2 ^ 32 }

-- An interface that is not Down sends a Hello when it is time for one.
unfoldable pub hello_sent : ℕ → OspfInterface → OspfInterface
hello_sent now i =
    if code i.state == code InterfaceState.down
    then i
    else if leb i.next_hello now
    then record (count_packet i) { next_hello = now + i.hello_interval * second }
    else i

abbrev pub is_past : ℕ → Option ℕ → Bool
is_past now none = false
is_past now (some expiry) = leb expiry now

unfoldable pub waited : ℕ → OspfInterface → OspfInterface
waited now i = if is_past now i.wait_timer_expiry then (Link.handle_event i wait_timer now).0 else i

-- The Hellos and the Wait timers of one tick; `emit_pending_dds` and `emit_pending_lsrs` follow.
unfoldable pub send_hellos : OspfInstance → ℕ → OspfInstance
send_hellos inst now = record inst { interfaces = map (hello_sent now) inst.interfaces }

unfoldable pub expire_waits : OspfInstance → ℕ → OspfInstance
expire_waits inst now = record inst { interfaces = map (waited now) inst.interfaces }

-- The first interface with the index.
unfoldable pub count_on : ℕ → List OspfInterface → List OspfInterface
count_on sw_if_index [] = []
count_on sw_if_index (i ∷ is) =
    let rest = count_on sw_if_index is in
    if i.sw_if_index == sw_if_index then count_packet i ∷ is else i ∷ rest

unfoldable pub send_each : List Response → List OspfInterface → List OspfInterface
send_each [] is = is
send_each ((sw_if_index, _, _) ∷ rs) is = send_each rs (count_on sw_if_index is)

unfoldable pub send_responses : OspfInstance → List Response → OspfInstance
send_responses inst rs = record inst { interfaces = send_each rs inst.interfaces }

abbrev pub same_name : String → String → Bool
same_name a b = elim (Text.compare a b) [ Ordering.eq ↦ true | _ ↦ false ]

abbrev pub with_address : OspfInterface → Option (Ipv4Addr × Ipv4Addr) → OspfInterface
with_address i none = i
with_address i (some (addr, mask)) = record i { address = addr; mask = mask }

-- What the dataplane says of the interface is stored, and it comes up.
unfoldable pub resolved : OspfInterface → ℕ → Option (Ipv4Addr × Ipv4Addr) → ℕ → ℕ → OspfInterface
resolved i sw_if_index addr_mask mtu now =
    (Link.handle_event
      (record (with_address i addr_mask) { sw_if_index = sw_if_index; dd_mtu = mtu }) interface_up
      now).0

-- The first interface with the name that has no index yet.
unfoldable pub resolve_in :
    List OspfInterface → String → ℕ → Option (Ipv4Addr × Ipv4Addr) → ℕ → ℕ → List OspfInterface
resolve_in [] name sw_if_index addr_mask mtu now = []
resolve_in (i ∷ is) name sw_if_index addr_mask mtu now =
    let rest = resolve_in is name sw_if_index addr_mask mtu now in
    if same_name i.name name && i.sw_if_index == 0
    then resolved i sw_if_index addr_mask mtu now ∷ is
    else i ∷ rest

unfoldable pub resolve_interface :
    OspfInstance → String → ℕ → Option (Ipv4Addr × Ipv4Addr) → ℕ → ℕ → OspfInstance
resolve_interface inst name sw_if_index addr_mask mtu now = record inst {
  interfaces = resolve_in inst.interfaces name sw_if_index addr_mask mtu now;
}
