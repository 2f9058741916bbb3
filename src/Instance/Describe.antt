-- ===== src/Instance/Describe.antt =====
-- Database Description packets, sent and received: `process_dd` and `build_dd` (src/instance.rs).
-- Logging is left out.
pub mod Run
pub mod Complete
pub mod Feed
pub mod Ended
use Prim.Native.Nat.{Ordering, max}
use ospfd.Common.{
  ℕ, ◌+◌, ◌-◌, ◌*◌, ◌/◌, ◌%◌, ◌^◌, Bool, true, false, not, ◌&&◌, ◌||◌, Option, none, some, List, [],
  ◌∷◌, ◌++◌, map, take, drop, set, ltb, leb, ◌==◌, if◌then◌else◌, Ipv4Addr,
}
use ospfd.Packet.Header.{OspfHeader, OspfPacketType, new_header}
use ospfd.Packet.Lsa.Header.{LsaKey, LsaType, LsaHeader, as_external, key}
use ospfd.Packet.Lsa.Header.Recency.{is_more_recent_than}
use ospfd.Packet.Exchange.{DbDescPacket, LsRequest, has_more, is_init}
use ospfd.Packet.Exchange as Exchange
use ospfd.Packet.Codec.{OspfPacket}
use ospfd.Neighbor.Machine as Peer
use ospfd.Neighbor.Machine.{
  Neighbor, NeighborState, ex_start, exchange, loading, negotiation_done, exchange_done, state_ge,
  state_eq, second,
}
use ospfd.Interface.Machine.{OspfInterface}
use ospfd.Area.{Area}
use ospfd.Lsdb.Entries.{key_eq}
use ospfd.Lsdb.Store as Store
use ospfd.Lsdb.Store.{LsdbEntry, bump_seq, all_headers}
use ospfd.Spf.Table.{get, put}
use ospfd.Instance.State.{OspfInstance, Response}
use ospfd.Instance.Timers.{schedule_spf}
use ospfd.Instance.Stored.{
  is_as_external, recover_area, recover_lsa, recover_lsas, recover, stored_header, area_entry,
  find_entry, lsa_exists, area_headers, our_headers,
}

unfoldable pub find_header : LsaKey → List LsaHeader → Option LsaHeader
find_header k [] = none
find_header k (h ∷ hs) = if key_eq (key h) k then some h else find_header k hs

abbrev is_greater : Ordering → Bool
is_greater Ordering.gt = true
is_greater _ = false

abbrev is_newer : Option LsaHeader → LsaHeader → Bool
is_newer none existing = false
is_newer (some h) existing = is_greater (is_more_recent_than h existing)

-- `need`
unfoldable pub need : List LsaHeader → LsaKey × Option LsaHeader → Bool
need headers (k, none) = true
need headers (k, some existing) = is_newer (find_header k headers) existing

unfoldable pub needed : List LsaHeader → List (LsaKey × Option LsaHeader) → List LsaKey
needed headers [] = []
needed headers ((k, e) ∷ es) =
    let rest = needed headers es in if need headers (k, e) then k ∷ rest else rest

-- What a DD packet meets: the ids of both routers, the packet, what is stored for its headers,
-- what we have to describe, and the time.
pub record Received : Type 0 where
  pub my_router_id : Ipv4Addr
  pub router_id : Ipv4Addr
  pub dd : DbDescPacket
  pub lsa_exists : List (LsaKey × Option LsaHeader)
  pub our_headers : List LsaHeader
  pub now : ℕ

abbrev pub is_empty : {A : Type 0} → List A → Bool
is_empty [] = true
is_empty (_ ∷ _) = false

abbrev enter_exchange : Received → Bool → ℕ → Neighbor → Neighbor
enter_exchange r master seq n =
    (Peer.handle_event
      (record n {
        is_master = master;
        dd_seq_number = seq;
        sent_m_clear = false;
        db_summary_list = r.our_headers;
      })
      negotiation_done true r.now).0

-- The negotiation in ExStart.
unfoldable pub negotiate : Received → Neighbor → Neighbor
negotiate r n =
    if is_init r.dd && (has_more r.dd && (Exchange.is_master r.dd && is_empty r.dd.lsa_headers))
    then if ltb r.my_router_id r.router_id
      then enter_exchange r false r.dd.dd_sequence_number n
      else n
    else if not (is_init r.dd) && not (Exchange.is_master r.dd)
    then if ltb r.router_id r.my_router_id && r.dd.dd_sequence_number == n.dd_seq_number
      then enter_exchange r true n.dd_seq_number n
      else n
    else n

abbrev push_requests : Received → Neighbor → Neighbor
push_requests r n = record n {
  ls_request_list = n.ls_request_list ++ needed r.dd.lsa_headers r.lsa_exists;
}

-- `match neighbor.state`
unfoldable pub advance : NeighborState → Received → Neighbor → Neighbor
advance ex_start r n =
    let m = negotiate r n in if state_eq m.state exchange then push_requests r m else m
advance exchange r n =
    let m = push_requests r n in
    if not (has_more r.dd) && n.sent_m_clear
    then (Peer.handle_event m exchange_done true r.now).0
    else m
advance _ r n = n

-- Phase 1.
unfoldable pub receive_dd : Received → Neighbor → Neighbor
receive_dd r n =
    let m = advance n.state r n in
    record m {
      last_dd = some r.dd;
      dd_seq_number =
          if state_eq m.state exchange && not m.is_master
          then r.dd.dd_sequence_number
          else m.dd_seq_number;
      last_dd_sent = r.now;
    }

abbrev pub max_headers_per_dd : ℕ
max_headers_per_dd = 60

abbrev dd_of : OspfInterface → ℕ → ℕ → List LsaHeader → DbDescPacket
dd_of i flags seq headers = record {
  interface_mtu = i.dd_mtu;
  options = i.options;
  flags = flags;
  dd_sequence_number = seq;
  lsa_headers = headers;
}

-- The DD packet that is not the first. DD_FLAG_MS is 1 and DD_FLAG_M is 2.
abbrev pub next_dd : OspfInterface → Neighbor → Neighbor × DbDescPacket
next_dd i n =
    let seq = if n.is_master then (n.dd_seq_number + 1) % 2 ^ 32 else n.dd_seq_number in
    let rest = drop max_headers_per_dd n.db_summary_list in
    (
      record n {
        dd_seq_number = seq;
        db_summary_list = rest;
        sent_m_clear = if is_empty rest then true else n.sent_m_clear;
      },
      dd_of i ((if n.is_master then 1 else 0) + (if is_empty rest then 0 else 2)) seq
          (take max_headers_per_dd n.db_summary_list),
    )

-- `build_dd` for a neighbor of an interface; the header is put on by `dd_packet`. The first packet
-- has all of I, M and MS.
unfoldable pub build_dd : OspfInterface → Neighbor → Bool → Neighbor × DbDescPacket
build_dd i n initial = if initial then (n, dd_of i 7 n.dd_seq_number []) else next_dd i n

abbrev pub dd_packet : Ipv4Addr → OspfInterface → DbDescPacket → OspfPacket
dd_packet rid i p =
    OspfPacket.database_description (new_header OspfPacketType.database_description rid i.area_id) p

-- Phase 2: the DD packet that answers, by the final state.
unfoldable pub answer_dd : OspfInterface → Neighbor → Neighbor × Option DbDescPacket
answer_dd i n =
    let first = build_dd i n true in
    let next = build_dd i n false in
    elim (n.state) [
      | ex_start ↦ (first.0, some first.1)
      | exchange ↦ (next.0, some next.1)
      | _ ↦ (n, none)
    ]

abbrev request_of : LsaKey → LsRequest
request_of k = record {
  ls_type = k.ls_type;
  link_state_id = k.link_state_id;
  advertising_router = k.advertising_router;
}

-- The first 20 requests that are outstanding.
unfoldable pub lsr_packet : Ipv4Addr → OspfInterface → Neighbor → OspfPacket
lsr_packet rid i n =
    OspfPacket.link_state_request (new_header OspfPacketType.link_state_request rid i.area_id)
      (record { requests = map request_of (take 20 n.ls_request_list) })

abbrev responses_of : Ipv4Addr → OspfInterface → Ipv4Addr → Option DbDescPacket → List Response
responses_of rid i dst none = []
responses_of rid i dst (some p) = (i.sw_if_index, dst, dd_packet rid i p) ∷ []

-- What a packet makes of the neighbor, the DD packet that answers, and whether an LSR does.
unfoldable pub reply : OspfInterface → Received → Neighbor → Neighbor × (Option DbDescPacket × Bool)
reply i r n =
    let m = receive_dd r n in
    let needs_lsr = state_ge m.state exchange && not (is_empty m.ls_request_list) in
    let a = answer_dd i m in
    (if needs_lsr then record (a.0) { last_lsr_sent = r.now } else a.0, (a.1, needs_lsr))

abbrev pub dd_found :
    OspfInstance → ℕ → OspfInterface → Ipv4Addr → Received → Neighbor → OspfInstance × List Response
dd_found inst idx i src r n =
    let a = reply i r n in
    let lsr = (i.sw_if_index, src, lsr_packet inst.router_id i a.0) ∷ [] in
    (
      record inst {
        interfaces =
            set inst.interfaces idx (record i { neighbors = put r.router_id a.0 i.neighbors });
      },
      responses_of inst.router_id i src a.1.0 ++ (if a.1.1 then lsr else []),
    )

abbrev pub dd_at :
    OspfInstance
    → ℕ
    → OspfInterface
    → Ipv4Addr
    → Received
    → Option Neighbor
    → OspfInstance × List Response
dd_at inst idx i src r none = (inst, [])
dd_at inst idx i src r (some n) = dd_found inst idx i src r n

abbrev pub received : OspfInstance → OspfInterface → OspfHeader → DbDescPacket → ℕ → Received
received inst i header p now = record {
  my_router_id = inst.router_id;
  router_id = header.router_id;
  dd = p;
  lsa_exists = lsa_exists inst i.area_id p.lsa_headers;
  our_headers = our_headers inst i.area_id now;
  now = now;
}

-- On the interface `i`, which has the index `idx`.
unfoldable pub process_dd :
    OspfInstance
    → ℕ
    → OspfInterface
    → Ipv4Addr
    → OspfHeader
    → DbDescPacket
    → ℕ
    → OspfInstance × List Response
process_dd inst idx i src header p now =
    let inst1 = recover inst i.area_id p.lsa_headers now in
    dd_at inst1 idx i src (received inst1 i header p now) (get header.router_id i.neighbors)
