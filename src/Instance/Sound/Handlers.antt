-- ===== src/Instance/Sound/Handlers.antt =====
-- `process_hello`, `process_dd` and `process_lsr` keep the instance sound.
use ospfd.Common.{
  Bool-cases, inl, inr, Ensures, ℕ, ◌≡◌, refl, arith, Bool, false, Option, none, some, List, [],
  ◌∷◌, Ipv4Addr, set,
}
use ospfd.Packet.Header.{OspfHeader}
use ospfd.Packet.Hello.{HelloPacket}
use ospfd.Packet.Exchange.{DbDescPacket, LsRequestPacket}
use ospfd.Packet.Lsa.Codec.{Lsa}
use ospfd.Neighbor.Machine as Peer
use ospfd.Neighbor.Machine.{
  new_neighbor, Neighbor, NeighborState, exchange, rank, bad_ls_req, state_ge,
}
use ospfd.Interface.Machine.{OspfInterface, backup_seen, neighbor_change}
use ospfd.Spf.Table.{get, put, contains}
use ospfd.Instance.State.{OspfInstance}
use ospfd.Instance.Hello.{
  insert_new, hear, check_two_way, notice_backup, notice_change, process_hello,
}
use ospfd.Instance.Hello.Known.{
  entry_or_new, intervals_match, heard, with_heard, noticed, process_hello-noticed,
}
use ospfd.Instance.Describe.{
  Received, advance, negotiate, receive_dd, build_dd, answer_dd, reply, process_dd, dd_found, dd_at,
  received,
}
use ospfd.Instance.Stored.{recover}
use ospfd.Instance.Request.{process_lsr, lsr_answer, refuse, find_requested}
use ospfd.Instance.Sound.{IsQuiet, HasQuietNeighbors, put-Values, get-Values, set-All, IsSound}
use ospfd.Instance.Sound.Neighbors.{handle_event-IsQuiet, new_neighbor-IsQuiet, event-Values}
use ospfd.Instance.Sound.Databases.{recover-IsSound}

pub set_interface-IsSound :
    (inst : OspfInstance) (idx : ℕ) (i : OspfInterface)
    → HasQuietNeighbors i
    → IsSound inst
    → IsSound (record inst { interfaces = set inst.interfaces idx i })
set_interface-IsSound inst idx i q s = record {
  neighbors = set-All HasQuietNeighbors inst.interfaces idx i s.neighbors q;
  areas = s.areas;
  external = s.external;
}

entry_or_new-IsQuiet :
    (i : OspfInterface) (id src : Ipv4Addr) (now : ℕ)
    → HasQuietNeighbors i
    → IsQuiet (entry_or_new i id src now)
unfolding entry_or_new
entry_or_new-IsQuiet i id src now q = by_found (get id i.neighbors) refl
  where
    by_found :
        (o : Option Neighbor)
        → get id i.neighbors ≡ o
        → IsQuiet (elim o [ none ↦ Peer.new_neighbor id src now | some n ↦ n ])
    by_found none h = new_neighbor-IsQuiet id src now
    by_found (some n) h = get-Values IsQuiet id n i.neighbors q h

hear-IsQuiet :
    (n : Neighbor) (h : HelloPacket) (src : Ipv4Addr) (now : ℕ)
    → IsQuiet n
    → IsQuiet (hear n h src now)
unfolding hear Peer.handle_event Peer.clear_lists
hear-IsQuiet n h src now q k = ground (arith, q)

check_two_way-IsQuiet :
    (i : OspfInterface) (listed : Bool) (n : Neighbor) (now : ℕ)
    → IsQuiet n
    → IsQuiet (check_two_way i listed n now)
unfolding check_two_way Peer.handle_event Peer.clear_lists
check_two_way-IsQuiet i listed n now q k = ground (arith, q)

notice_backup-Values :
    (i : OspfInterface) (n : Neighbor) (now : ℕ)
    → HasQuietNeighbors i
    → HasQuietNeighbors (notice_backup i n now)
unfolding notice_backup
notice_backup-Values i n now q = ground (arith, event-Values i backup_seen now q)

notice_change-Values :
    (i : OspfInterface) (old n : Neighbor) (now : ℕ)
    → HasQuietNeighbors i
    → HasQuietNeighbors (notice_change i old n now)
unfolding notice_change
notice_change-Values i old n now q = ground (arith, event-Values i neighbor_change now q)

insert_new-Values :
    (i : OspfInterface) (id src : Ipv4Addr) (now : ℕ)
    → HasQuietNeighbors i
    → HasQuietNeighbors (insert_new i id src now)
unfolding insert_new
insert_new-Values i id src now q = by_found (get id i.neighbors)
  where
    by_found :
        (o : Option Neighbor)
        → HasQuietNeighbors (elim o as (λ x. OspfInterface) [
          | none ↦ record i { neighbors = put id (new_neighbor id src now) i.neighbors }
          | some n ↦ i
        ])
    by_found none =
        put-Values IsQuiet id (new_neighbor id src now) i.neighbors
          (new_neighbor-IsQuiet id src now) q
    by_found (some n) = q

noticed-Values :
    (rid : Ipv4Addr) (i : OspfInterface) (id src : Ipv4Addr) (h : HelloPacket) (now : ℕ)
    → HasQuietNeighbors i
    → HasQuietNeighbors (noticed rid i id src h now)
noticed-Values rid i id src h now q =
    let old = entry_or_new i id src now in
    let known = insert_new i id src now in
    let n = heard rid i id src h now in
    let next = with_heard rid i id src h now in
    let quiet =
      check_two_way-IsQuiet known (contains rid h.neighbors) (hear old h src now) now
        (hear-IsQuiet old h src now (entry_or_new-IsQuiet i id src now q)) in
    notice_change-Values (notice_backup next n now) old n now (
      notice_backup-Values next n now
        (put-Values IsQuiet id n known.neighbors quiet (insert_new-Values i id src now q)))

pub process_hello-Values :
    (rid : Ipv4Addr) (i : OspfInterface) (id src : Ipv4Addr) (h : HelloPacket) (now : ℕ)
    → HasQuietNeighbors i
    → Ensures HasQuietNeighbors (process_hello rid i id src h now)
process_hello-Values rid i id src h now q =
    rw (process_hello-noticed rid i id src h now) (elim (Bool-cases (intervals_match i h)) [
      | inl match ↦ rw match (noticed-Values rid i id src h now q)
      | inr other ↦ rw other q
    ])

advance-IsQuiet : (r : Received) (n : Neighbor) → IsQuiet n → IsQuiet (advance n.state r n)
unfolding advance negotiate Peer.handle_event
advance-IsQuiet r n q k = ground (arith, q)

receive_dd-IsQuiet : (r : Received) (n : Neighbor) → IsQuiet n → IsQuiet (receive_dd r n)
unfolding receive_dd
receive_dd-IsQuiet r n q k =
    let m = advance-IsQuiet r n q k in
    record { requests = m.requests; retransmissions = m.retransmissions; summaries = m.summaries }

answer_dd-IsQuiet : (i : OspfInterface) (n : Neighbor) → IsQuiet n → IsQuiet (answer_dd i n).0
unfolding answer_dd build_dd
answer_dd-IsQuiet i n q k = ground (arith, q)

reply-IsQuiet :
    (i : OspfInterface) (r : Received) (n : Neighbor) → IsQuiet n → IsQuiet (reply i r n).0
unfolding reply
reply-IsQuiet i r n k h =
    let quiet = answer_dd-IsQuiet i (receive_dd r n) (receive_dd-IsQuiet r n k) in
    ground (arith, quiet)

dd_found-IsSound :
    (inst : OspfInstance) (idx : ℕ) (i : OspfInterface) (src : Ipv4Addr) (r : Received)
    (n : Neighbor)
    → HasQuietNeighbors i
    → IsQuiet n
    → IsSound inst
    → IsSound (dd_found inst idx i src r n).0
dd_found-IsSound inst idx i src r n q k s =
    let m = (reply i r n).0 in
    set_interface-IsSound inst idx (record i { neighbors = put r.router_id m i.neighbors })
      (put-Values IsQuiet r.router_id m i.neighbors (reply-IsQuiet i r n k) q) s

pub process_dd-IsSound :
    (inst : OspfInstance) (idx : ℕ) (i : OspfInterface) (src : Ipv4Addr) (h : OspfHeader)
    (p : DbDescPacket) (now : ℕ)
    → HasQuietNeighbors i
    → IsSound inst
    → IsSound (process_dd inst idx i src h p now).0
unfolding process_dd
process_dd-IsSound inst idx i src h p now q s = by_found (get h.router_id i.neighbors) refl
  where
    inst1 : OspfInstance
    inst1 = recover inst i.area_id p.lsa_headers now

    sound : IsSound inst1
    sound = recover-IsSound inst i.area_id p.lsa_headers now s

    by_found :
        (o : Option Neighbor)
        → get h.router_id i.neighbors ≡ o
        → IsSound (dd_at inst1 idx i src (received inst1 i h p now) o).0
    by_found none e = sound
    by_found (some n) e =
        dd_found-IsSound inst1 idx i src (received inst1 i h p now) n q
          (get-Values IsQuiet h.router_id n i.neighbors q e) sound

pub process_lsr-IsSound :
    (inst : OspfInstance) (idx : ℕ) (i : OspfInterface) (src : Ipv4Addr) (h : OspfHeader)
    (p : LsRequestPacket) (now : ℕ)
    → HasQuietNeighbors i
    → IsSound inst
    → IsSound (process_lsr inst idx i src h p now).0
unfolding process_lsr
process_lsr-IsSound inst idx i src h p now q s =
    by_requests (find_requested inst i.area_id p.requests)
  where
    refused :
        (o : Option Neighbor)
        → get h.router_id i.neighbors ≡ o
        → IsSound (refuse inst idx i h.router_id now o)
    refused none e = s
    refused (some n) e =
        let m = (Peer.handle_event n bad_ls_req false now).0 in
        let k = get-Values IsQuiet h.router_id n i.neighbors q e in
        set_interface-IsSound inst idx (record i { neighbors = put h.router_id m i.neighbors })
          (put-Values IsQuiet h.router_id m i.neighbors
            (handle_event-IsQuiet n bad_ls_req false now k) q)
          s

    by_requests : (o : Option (List Lsa)) → IsSound (lsr_answer inst idx i src h.router_id now o).0
    by_requests none = refused (get h.router_id i.neighbors) refl
    by_requests (some []) = s
    by_requests (some (l ∷ ls)) = s
