-- ===== src/Instance/Hello.antt =====
-- Hello packets: `process_hello`, on the interface that one came in on, and `build_hello`
-- (src/instance.rs).
pub mod Known
pub mod TwoWay
use ospfd.Common.{
  Outcome, ok, unwrap, ◌>>=◌, ℕ, Bool, true, false, not, ◌&&◌, ◌||◌, Option, none, some, List, [],
  ◌∷◌, map, ◌==◌, if◌then◌else◌, Ipv4Addr, unspecified,
}
use ospfd.Packet.Header.{OspfPacketType, new_header}
use ospfd.Packet.Hello.{HelloPacket}
use ospfd.Packet.Codec
use ospfd.Packet.Codec.{OspfPacket}
use ospfd.Neighbor.Machine as Peer
use ospfd.Neighbor.Machine.{
  Neighbor, NeighborState, new_neighbor, init, two_way, hello_received, two_way_received, one_way,
  state_ge, state_eq,
}
use ospfd.Interface.Election.{filter}
use ospfd.Interface.Machine as Link
use ospfd.Interface.Machine.{
  OspfInterface, InterfaceState, waiting, backup_seen, neighbor_change, code, should_form_adjacency,
}
use ospfd.Spf.Table.{get, put, contains}

-- The neighbor is inserted into the map if it is new.
unfoldable pub insert_new : OspfInterface → Ipv4Addr → Ipv4Addr → ℕ → OspfInterface
insert_new i id src now = elim (get id i.neighbors) [
  | none ↦ record i { neighbors = put id (new_neighbor id src now) i.neighbors }
  | some n ↦ i
]

-- What the Hello declares is stored, then `HelloReceived`.
unfoldable pub hear : Neighbor → HelloPacket → Ipv4Addr → ℕ → Neighbor
hear n hello src now =
    (Peer.handle_event
      (record n {
        priority = hello.router_priority;
        dr = hello.designated_router;
        bdr = hello.backup_designated_router;
        address = src;
      })
      hello_received false now).0

-- The 2-Way check; the test of `adj` is that of `should_form_adjacency`, written out in the source.
unfoldable pub check_two_way : OspfInterface → Bool → Neighbor → ℕ → Neighbor
check_two_way i listed n now =
    if listed && state_eq n.state init
    then (Peer.handle_event n two_way_received (should_form_adjacency i n) now).0
    else if not listed && state_ge n.state two_way
    then (Peer.handle_event n one_way false now).0
    else n

unfoldable pub differ : Bool → Bool → Bool
differ true b = not b
differ false b = b

-- `BackupSeen` in Waiting, if the neighbor declares a DR or BDR.
unfoldable pub notice_backup : OspfInterface → Neighbor → ℕ → OspfInterface
notice_backup i n now =
    if code i.state == code waiting && (not (n.bdr == unspecified) || not (n.dr == unspecified))
    then (Link.handle_event i backup_seen now).0
    else i

-- `NeighborChange`, if the neighbor crossed the 2-Way boundary or declares another DR or BDR.
unfoldable pub notice_change : OspfInterface → Neighbor → Neighbor → ℕ → OspfInterface
notice_change i old n now =
    if differ (state_ge old.state two_way) (state_ge n.state two_way)
      || (not (old.dr == n.dr) || not (old.bdr == n.bdr))
    then (Link.handle_event i neighbor_change now).0
    else i

-- The neighbor is read from the map before it is changed and afterwards, and each `unwrap` panics if it
-- is not there.
unfoldable pub process_hello :
    Ipv4Addr → OspfInterface → Ipv4Addr → Ipv4Addr → HelloPacket → ℕ → Outcome OspfInterface
process_hello rid i id src hello now =
    if not (hello.hello_interval == i.hello_interval)
      || not (hello.router_dead_interval == i.dead_interval)
    then ok i
    else do
      let known = insert_new i id src now
      old ← unwrap (get id known.neighbors)
      let n = check_two_way known (contains rid hello.neighbors) (hear old hello src now) now
      let heard = record known { neighbors = put id n known.neighbors }
      after ← unwrap (get id heard.neighbors)
      ok (notice_change (notice_backup heard after now) old after now)

abbrev heard_from : Ipv4Addr × Neighbor → Bool
heard_from (id, n) = state_ge n.state init

abbrev router_id_of : Ipv4Addr × Neighbor → Ipv4Addr
router_id_of (id, n) = n.router_id

unfoldable pub build_hello : Ipv4Addr → OspfInterface → OspfPacket
build_hello rid i = OspfPacket.hello (new_header OspfPacketType.hello rid i.area_id) (record {
  network_mask = i.mask;
  hello_interval = i.hello_interval;
  options = i.options;
  router_priority = i.priority;
  router_dead_interval = i.dead_interval;
  designated_router = i.dr;
  backup_designated_router = i.bdr;
  neighbors = map router_id_of (filter heard_from i.neighbors);
})
