-- ===== src/Instance/Stored.antt =====
-- What the databases hold of the headers of a Database Description packet: the first part of
-- `process_dd` (src/instance.rs), with the recovery of stale LSAs of our own.
pub mod Kept
use Prim.Native.Nat.{Ordering, max}
use ospfd.Common.{
  ℕ, ◌+◌, ◌-◌, ◌*◌, ◌/◌, ◌%◌, ◌^◌, Bool, true, false, not, ◌&&◌, ◌||◌, Option, none, some, List, [],
  ◌∷◌, ◌++◌, map, take, drop, set, ltb, leb, ◌==◌, if◌then◌else◌, Ipv4Addr,
}
use ospfd.Packet.Header.{OspfHeader, OspfPacketType, new_header}
use ospfd.Packet.Lsa.Header.{LsaKey, LsaType, LsaHeader, as_external, key}
use ospfd.Packet.Lsa.Header.Recency.{is_more_recent_than}
use ospfd.Packet.Exchange.{DbDescPacket, LsRequest, has_more, is_init}
use ospfd.Packet.Exchange as Exchange
use ospfd.Packet.Codec.{OspfPacket}
use ospfd.Neighbor.Machine as Peer
use ospfd.Neighbor.Machine.{
  Neighbor, NeighborState, ex_start, exchange, loading, negotiation_done, exchange_done, state_ge,
  state_eq, second,
}
use ospfd.Interface.Machine.{OspfInterface}
use ospfd.Area.{Area}
use ospfd.Lsdb.Entries.{key_eq}
use ospfd.Lsdb.Store as Store
use ospfd.Lsdb.Store.{LsdbEntry, bump_seq, all_headers}
use ospfd.Spf.Table.{get, put}
use ospfd.Instance.State.{OspfInstance, Response}
use ospfd.Instance.Timers.{schedule_spf}

abbrev pub is_as_external : LsaType → Bool
is_as_external as_external = true
is_as_external _ = false

abbrev pub recover_area : OspfInstance → Ipv4Addr → LsaHeader → Option Area → OspfInstance × Bool
recover_area inst area_id h none = (inst, false)
recover_area inst area_id h (some a) =
    let b = bump_seq a.lsdb (key h) h.ls_sequence_number in
    (record inst { areas = put area_id (record a { lsdb = b.0 }) inst.areas }, b.1)

-- One header of the stale-self-LSA recovery: whether a sequence number was bumped.
unfoldable pub recover_lsa : OspfInstance → Ipv4Addr → LsaHeader → OspfInstance × Bool
recover_lsa inst area_id h =
    let b = bump_seq inst.as_external_lsdb (key h) h.ls_sequence_number in
    if not (h.advertising_router == inst.router_id)
    then (inst, false)
    else if is_as_external h.ls_type
    then (record inst { as_external_lsdb = b.0 }, b.1)
    else recover_area inst area_id h (get area_id inst.areas)

unfoldable pub recover_lsas : OspfInstance → Ipv4Addr → List LsaHeader → OspfInstance × Bool
recover_lsas inst area_id [] = (inst, false)
recover_lsas inst area_id (h ∷ hs) =
    let first = recover_lsa inst area_id h in
    let rest = recover_lsas first.0 area_id hs in (rest.0, first.1 || rest.1)

unfoldable pub recover : OspfInstance → Ipv4Addr → List LsaHeader → ℕ → OspfInstance
recover inst area_id hs now =
    let r = recover_lsas inst area_id hs in if r.1 then schedule_spf r.0 now else r.0

abbrev pub stored_header : Option LsdbEntry → Option LsaHeader
stored_header none = none
stored_header (some e) = some e.lsa.header

-- The entry of the area's database, or of the one of the AS for a Type 5 LSA.
abbrev pub area_entry : Option Area → LsaKey → Option LsdbEntry
area_entry none k = none
area_entry (some a) k = Store.get a.lsdb k

unfoldable pub find_entry : OspfInstance → Ipv4Addr → LsaKey → Option LsdbEntry
find_entry inst area_id k =
    if is_as_external k.ls_type
    then Store.get inst.as_external_lsdb k
    else area_entry (get area_id inst.areas) k

-- `lsa_exists`: what is stored under the key of each header.
unfoldable pub lsa_exists :
    OspfInstance → Ipv4Addr → List LsaHeader → List (LsaKey × Option LsaHeader)
lsa_exists inst area_id [] = []
lsa_exists inst area_id (h ∷ hs) =
    (key h, stored_header (find_entry inst area_id (key h))) ∷ lsa_exists inst area_id hs

abbrev pub area_headers : Option Area → ℕ → List LsaHeader
area_headers none now = []
area_headers (some a) now = all_headers a.lsdb now

unfoldable pub our_headers : OspfInstance → Ipv4Addr → ℕ → List LsaHeader
our_headers inst area_id now =
    area_headers (get area_id inst.areas) now ++ all_headers inst.as_external_lsdb now
