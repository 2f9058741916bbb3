-- ===== src/Instance/Update.antt =====
-- Link State Update packets: `process_lsu` (src/instance.rs). Logging is left out.
pub mod Loading
use ospfd.Common.{
  ℕ, zero, suc, Bool, true, false, not, ◌&&◌, ◌||◌, Option, none, some, List, [], ◌∷◌, ◌++◌, set,
  ◌==◌, if◌then◌else◌, Ipv4Addr, Outcome, ok, ◌>>=◌,
}
use ospfd.Packet.Header.{OspfHeader, OspfPacketType, new_header}
use ospfd.Packet.Lsa.Header.{
  LsaKey, LsaType, LsaHeader, router, network, summary_network, summary_asbr, as_external,
}
use ospfd.Packet.Lsa.Codec.{Lsa, key}
use ospfd.Packet.Exchange.{LsRequest, LsRequestPacket, LsUpdatePacket}
use ospfd.Packet.Codec.{OspfPacket}
use ospfd.Neighbor.Machine as Peer
use ospfd.Neighbor.Machine.{
  Neighbor, NeighborState, exchange, loading, full, loading_done, bad_ls_req, state_ge, state_eq,
}
use ospfd.Interface.Election.{filter}
use ospfd.Interface.Machine.{OspfInterface}
use ospfd.Area.{Area, accepts_as_external}
use ospfd.Lsdb.Entries.{key_eq}
use ospfd.Lsdb.Store as Store
use ospfd.Lsdb.Store.{LsdbEntry, InstallResult, new, updated, duplicate, older, install}
use ospfd.Spf.Table.{get, put}
use ospfd.Instance.State.{OspfInstance, Response, get_elem?, is_abr}
use ospfd.Instance.Timers.{schedule_spf}
use ospfd.Instance.Flood.{flood_lsas_to_others, flood_own}
use ospfd.Instance.Describe.{is_empty}
use ospfd.Instance.Stored.{is_as_external, find_entry}
use ospfd.Instance.Originate.{originate_router_lsas, originate_network_lsas, is_down}
use ospfd.Instance.Originate.Summary.{originate_summary_lsas}

-- The variables of the loop over the LSAs of an update.
pub record LsuState : Type 0 where
  pub inst : OspfInstance
  pub ack_headers : List LsaHeader
  pub to_flood : List Lsa
  pub schedule_spf : Bool
  pub neighbor_reached_full : Bool
  pub responses : List Response

unfoldable pub area_is_stub : OspfInstance → Ipv4Addr → Bool
area_is_stub inst area_id = elim (get area_id inst.areas) [
  | none ↦ false
  | some a ↦ not (accepts_as_external a)
]

abbrev pub install_in_area :
    OspfInstance → Ipv4Addr → Lsa → ℕ → Option Area → OspfInstance × Option InstallResult
install_in_area inst area_id l now none = (inst, none)
install_in_area inst area_id l now (some a) =
    let r = install a.lsdb l now in
    (record inst { areas = put area_id (record a { lsdb = r.0 }) inst.areas }, some r.1)

-- Into the database of the AS or of the area; `none` where there is no such area.
unfoldable pub install_lsa : OspfInstance → Ipv4Addr → Lsa → ℕ → OspfInstance × Option InstallResult
install_lsa inst area_id l now =
    let r = install inst.as_external_lsdb l now in
    if is_as_external l.header.ls_type
    then (record inst { as_external_lsdb = r.0 }, some r.1)
    else install_in_area inst area_id l now (get area_id inst.areas)

-- `retain(|k| *k != key)`
unfoldable pub retain_other : LsaKey → List LsaKey → List LsaKey
retain_other k [] = []
retain_other k (j ∷ js) = let rest = retain_other k js in if key_eq j k then rest else j ∷ rest

-- The request is answered: whether the neighbor becomes Full.
unfoldable pub answered : LsaKey → Neighbor → ℕ → Neighbor × Bool
answered k n now =
    let m = record n { ls_request_list = retain_other k n.ls_request_list } in
    if state_eq m.state loading && is_empty m.ls_request_list
    then ((Peer.handle_event m loading_done true now).0, true)
    else (m, false)

abbrev pub answered_on :
    List OspfInterface
    → ℕ
    → OspfInterface
    → Ipv4Addr
    → LsaKey
    → ℕ
    → Option Neighbor
    → List OspfInterface × Bool
answered_on is idx i id k now none = (is, false)
answered_on is idx i id k now (some n) =
    let a = answered k n now in (set is idx (record i { neighbors = put id a.0 i.neighbors }), a.1)

abbrev pub answered_at :
    List OspfInterface
    → ℕ
    → Ipv4Addr
    → LsaKey
    → ℕ
    → Option OspfInterface
    → List OspfInterface × Bool
answered_at is idx id k now none = (is, false)
answered_at is idx id k now (some i) = answered_on is idx i id k now (get id i.neighbors)

unfoldable pub remove_request :
    List OspfInterface → ℕ → Ipv4Addr → LsaKey → ℕ → List OspfInterface × Bool
remove_request is idx id k now = answered_at is idx id k now (get_elem? is idx)

abbrev is_topology : LsaType → Bool
is_topology router = true
is_topology network = true
is_topology summary_network = true
is_topology _ = false

-- The acknowledgement, and the request list, of a new, updated or duplicate LSA.
abbrev pub acknowledge : ℕ → Ipv4Addr → Lsa → ℕ → LsuState → LsuState
acknowledge idx id l now s =
    let a = remove_request s.inst.interfaces idx id (key l) now in
    record s {
      inst = record (s.inst) { interfaces = a.0 };
      ack_headers = s.ack_headers ++ (l.header ∷ []);
      neighbor_reached_full = s.neighbor_reached_full || a.1;
    }

abbrev pub take_in : ℕ → Ipv4Addr → Lsa → ℕ → LsuState → LsuState
take_in idx id l now s =
    let t = acknowledge idx id l now s in
    record t {
      schedule_spf = t.schedule_spf || is_topology l.header.ls_type;
      to_flood = t.to_flood ++ (l ∷ []);
    }

-- Our newer copy, which is looked for in the area's database alone.
abbrev newer_copy : OspfInstance → OspfInterface → Ipv4Addr → Option LsdbEntry → List Response
newer_copy inst i src none = []
newer_copy inst i src (some e) =
    (
      i.sw_if_index,
      src,
      OspfPacket.link_state_update
          (new_header OspfPacketType.link_state_update inst.router_id i.area_id)
          (record { lsas = e.lsa ∷ [] }),
    )
    ∷ []

abbrev area_copy : Option Area → LsaKey → Option LsdbEntry
area_copy none k = none
area_copy (some a) k = Store.get a.lsdb k

abbrev pub send_back : OspfInterface → Ipv4Addr → Lsa → LsuState → LsuState
send_back i src l s =
    let copy = area_copy (get i.area_id s.inst.areas) (key l) in
    record s { responses = s.responses ++ newer_copy s.inst i src copy }

-- `match result`
abbrev pub by_result :
    ℕ → OspfInterface → Ipv4Addr → Ipv4Addr → Lsa → ℕ → LsuState → Option InstallResult → LsuState
by_result idx i src id l now s none = s
by_result idx i src id l now s (some new) = take_in idx id l now s
by_result idx i src id l now s (some updated) = take_in idx id l now s
by_result idx i src id l now s (some duplicate) = acknowledge idx id l now s
by_result idx i src id l now s (some older) = send_back i src l s

-- One LSA of the update that came in on `i`, which has the index `idx`, from the router `id`.
unfoldable pub process_lsa :
    ℕ → OspfInterface → Ipv4Addr → Ipv4Addr → Bool → ℕ → LsuState → Lsa → LsuState
process_lsa idx i src id stub now s l =
    let r = install_lsa s.inst i.area_id l now in
    if is_as_external l.header.ls_type && stub
    then s
    else by_result idx i src id l now (record s { inst = r.0 }) r.1

unfoldable pub process_lsas :
    ℕ → OspfInterface → Ipv4Addr → Ipv4Addr → Bool → ℕ → LsuState → List Lsa → LsuState
process_lsas idx i src id stub now s [] = s
process_lsas idx i src id stub now s (l ∷ ls) =
    process_lsas idx i src id stub now (process_lsa idx i src id stub now s l) ls

abbrev ack_response : OspfInstance → OspfInterface → Ipv4Addr → List LsaHeader → List Response
ack_response inst i src [] = []
ack_response inst i src (h ∷ hs) =
    (
      i.sw_if_index,
      src,
      OspfPacket.link_state_ack (new_header OspfPacketType.link_state_ack inst.router_id i.area_id)
          (record { lsa_headers = h ∷ hs }),
    )
    ∷ []

-- What follows when a neighbor reached Full.
unfoldable pub reoriginate : OspfInstance → ℕ → Outcome (OspfInstance × List Response)
reoriginate inst now = do
  r ← originate_router_lsas inst now
  n ← originate_network_lsas r.0 now
  s ← (if is_abr n.0 then originate_summary_lsas n.0 now else ok (n.0, []))
  ok (s.0, flood_own r.0 r.1 ++ (flood_own n.0 n.1 ++ flood_own s.0 s.1))

abbrev pub after_full : Bool → OspfInstance → ℕ → Outcome (OspfInstance × List Response)
after_full false inst now = ok (inst, [])
after_full true inst now = reoriginate inst now

abbrev pub start : OspfInstance → LsuState
start inst = record {
  inst = inst;
  ack_headers = [];
  to_flood = [];
  schedule_spf = false;
  neighbor_reached_full = false;
  responses = [];
}

-- On the interface `i`, which has the index `idx`.
unfoldable pub process_lsu :
    OspfInstance
    → ℕ
    → OspfInterface
    → Ipv4Addr
    → OspfHeader
    → LsUpdatePacket
    → ℕ
    → Outcome (OspfInstance × List Response)
process_lsu inst idx i src header lsu now = do
  let s =
      process_lsas idx i src header.router_id (area_is_stub inst i.area_id) now (start inst)
        lsu.lsas
  let acks = ack_response s.inst i src s.ack_headers
  let flooded = flood_lsas_to_others s.inst (some idx) header.router_id s.to_flood
  r ← after_full s.neighbor_reached_full s.inst now
  ok (
    (if s.neighbor_reached_full || s.schedule_spf
        then ospfd.Instance.Timers.schedule_spf r.0 now
        else r.0),
    s.responses ++ (acks ++ (flooded ++ r.1)),
  )
