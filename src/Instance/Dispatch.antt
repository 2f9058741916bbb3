-- ===== src/Instance/Dispatch.antt =====
-- `process_packet`: a packet that arrives, and the handler of its type (src/instance.rs).
pub mod Invariant
use ospfd.Common.{
  ◌>>=◌, ℕ, Option, none, some, List, [], set, not, ◌==◌, if◌then◌else◌, Ipv4Addr, Outcome, ok,
  fault, panic,
}
use ospfd.Packet.Codec.{OspfPacket, header_of}
use ospfd.Interface.Machine.{OspfInterface}
use ospfd.Instance.State.{OspfInstance, Response, get_elem?, find_interface}
use ospfd.Instance.Hello.{process_hello}
use ospfd.Instance.Describe.{process_dd}
use ospfd.Instance.Update.{process_lsu}
use ospfd.Instance.Request.{process_lsr}

-- `match packet`, on the interface `i`, which has the index `idx`.
unfoldable pub handle_packet :
    OspfInstance
    → ℕ
    → OspfInterface
    → Ipv4Addr
    → OspfPacket
    → ℕ
    → Outcome (OspfInstance × List Response)
handle_packet inst idx i src (OspfPacket.hello h p) now = do
  after ← process_hello inst.router_id i h.router_id src p now
  ok (record inst { interfaces = set inst.interfaces idx after }, [])
handle_packet inst idx i src (OspfPacket.database_description h p) now =
    ok (process_dd inst idx i src h p now)
handle_packet inst idx i src (OspfPacket.link_state_request h p) now =
    ok (process_lsr inst idx i src h p now)
handle_packet inst idx i src (OspfPacket.link_state_update h p) now =
    process_lsu inst idx i src h p now
handle_packet inst idx i src (OspfPacket.link_state_ack h p) now = ok (inst, [])

-- `self.interfaces[iface_idx]`, and the area of the packet.
abbrev pub on_interface :
    OspfInstance
    → ℕ
    → Option OspfInterface
    → Ipv4Addr
    → OspfPacket
    → ℕ
    → Outcome (OspfInstance × List Response)
on_interface inst idx none src p now = fault panic
on_interface inst idx (some i) src p now =
    if not ((header_of p).area_id == i.area_id)
    then ok (inst, [])
    else handle_packet inst idx i src p now

abbrev pub on_index :
    OspfInstance → Option ℕ → Ipv4Addr → OspfPacket → ℕ → Outcome (OspfInstance × List Response)
on_index inst none src p now = ok (inst, [])
on_index inst (some idx) src p now = on_interface inst idx (get_elem? inst.interfaces idx) src p now

unfoldable pub process_packet :
    OspfInstance → ℕ → Ipv4Addr → OspfPacket → ℕ → Outcome (OspfInstance × List Response)
process_packet inst sw_if_index src p now =
    on_index inst (find_interface inst sw_if_index) src p now
