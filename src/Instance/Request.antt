-- ===== src/Instance/Request.antt =====
-- Link State Request packets: `process_lsr` (src/instance.rs).
use ospfd.Common.{ℕ, false, Option, none, some, List, [], ◌∷◌, set, Ipv4Addr}
use ospfd.Packet.Header.{OspfHeader, OspfPacketType, new_header}
use ospfd.Packet.Lsa.Header.{LsaKey}
use ospfd.Packet.Lsa.Codec.{Lsa}
use ospfd.Packet.Exchange.{LsRequest, LsRequestPacket}
use ospfd.Packet.Codec.{OspfPacket}
use ospfd.Neighbor.Machine as Peer
use ospfd.Neighbor.Machine.{
  Neighbor, NeighborState, exchange, loading, full, loading_done, bad_ls_req, state_ge, state_eq,
}
use ospfd.Interface.Machine.{OspfInterface}
use ospfd.Lsdb.Store.{LsdbEntry}
use ospfd.Spf.Table.{get, put}
use ospfd.Instance.State.{OspfInstance, Response}
use ospfd.Instance.Stored.{find_entry}

-- The LSAs that were asked for, or none if one of them is not there.
abbrev found_also : Option LsdbEntry → Option (List Lsa) → Option (List Lsa)
found_also none rest = none
found_also (some e) none = none
found_also (some e) (some ls) = some (e.lsa ∷ ls)

abbrev requested_key : LsRequest → LsaKey
requested_key r = record {
  ls_type = r.ls_type;
  link_state_id = r.link_state_id;
  advertising_router = r.advertising_router;
}

unfoldable pub find_requested : OspfInstance → Ipv4Addr → List LsRequest → Option (List Lsa)
find_requested inst area_id [] = some []
find_requested inst area_id (r ∷ rs) =
    found_also (find_entry inst area_id (requested_key r)) (find_requested inst area_id rs)

-- `BadLSReq`
abbrev pub refuse : OspfInstance → ℕ → OspfInterface → Ipv4Addr → ℕ → Option Neighbor → OspfInstance
refuse inst idx i id now none = inst
refuse inst idx i id now (some n) =
    let m = (Peer.handle_event n bad_ls_req false now).0 in
    record inst {
      interfaces = set inst.interfaces idx (record i { neighbors = put id m i.neighbors });
    }

abbrev pub lsr_answer :
    OspfInstance
    → ℕ
    → OspfInterface
    → Ipv4Addr
    → Ipv4Addr
    → ℕ
    → Option (List Lsa)
    → OspfInstance × List Response
lsr_answer inst idx i src id now none = (refuse inst idx i id now (get id i.neighbors), [])
lsr_answer inst idx i src id now (some []) = (inst, [])
lsr_answer inst idx i src id now (some (l ∷ ls)) = (
  inst,
  (
    i.sw_if_index,
    src,
    OspfPacket.link_state_update
        (new_header OspfPacketType.link_state_update inst.router_id i.area_id)
        (record { lsas = l ∷ ls }),
  )
      ∷ [],
)

unfoldable pub process_lsr :
    OspfInstance
    → ℕ
    → OspfInterface
    → Ipv4Addr
    → OspfHeader
    → LsRequestPacket
    → ℕ
    → OspfInstance × List Response
process_lsr inst idx i src header lsr now =
    lsr_answer inst idx i src header.router_id now (find_requested inst i.area_id lsr.requests)
