-- ===== src/Instance/Tick.antt =====
-- What the tick sends again: `emit_pending_dds` and `emit_pending_lsrs` (src/instance.rs). Logging is
-- left out.
use Prim.Native.Nat.{max}
use ospfd.Common.{
  ℕ, ◌+◌, ◌-◌, ◌*◌, ◌/◌, ◌%◌, Bool, true, false, not, ◌&&◌, List, [], ◌∷◌, ◌++◌, leb, ◌==◌,
  if◌then◌else◌, Ipv4Addr,
}
use ospfd.Neighbor.Machine.{Neighbor, NeighborState, ex_start, exchange, loading, state_eq, second}
use ospfd.Interface.Machine.{OspfInterface}
use ospfd.Instance.State.{OspfInstance, Response}
use ospfd.Instance.Describe.{build_dd, dd_packet, lsr_packet, is_empty}

-- The tick: a neighbor in ExStart that no DD packet was sent to for a second.
unfoldable pub dd_pending : ℕ → Neighbor → Bool
dd_pending now n = state_eq n.state ex_start && leb second (now - n.last_dd_sent)

-- `now.elapsed()`, of an Instant taken just before, is `elapsed`; its milliseconds are in the
-- lowest 16 bits of the first sequence number.
abbrev seeded : ℕ → ℕ → Neighbor → Neighbor
seeded elapsed now n = record n {
  dd_seq_number =
      if n.dd_seq_number == 0 then 0x80000000 + elapsed / 1000000 % 65536 else n.dd_seq_number;
  last_dd_sent = now;
}

unfoldable pub pending_dds_on :
    Ipv4Addr
    → OspfInterface
    → ℕ
    → ℕ
    → List (Ipv4Addr × Neighbor)
    → List (Ipv4Addr × Neighbor) × List Response
pending_dds_on rid i elapsed now [] = ([], [])
pending_dds_on rid i elapsed now ((id, n) ∷ ns) =
    let rest = pending_dds_on rid i elapsed now ns in
    let b = build_dd i (seeded elapsed now n) true in
    if dd_pending now n
    then ((id, b.0) ∷ rest.0, (i.sw_if_index, n.address, dd_packet rid i b.1) ∷ rest.1)
    else ((id, n) ∷ rest.0, rest.1)

unfoldable pub pending_dds :
    Ipv4Addr → List OspfInterface → ℕ → ℕ → List OspfInterface × List Response
pending_dds rid [] elapsed now = ([], [])
pending_dds rid (i ∷ is) elapsed now =
    let first = pending_dds_on rid i elapsed now i.neighbors in
    let rest = pending_dds rid is elapsed now in
    (record i { neighbors = first.0 } ∷ rest.0, first.1 ++ rest.1)

-- The keys of the map of neighbors are their router ids, and going through the collected ones is a
-- pass over the entries.
unfoldable pub emit_pending_dds : OspfInstance → ℕ → ℕ → OspfInstance × List Response
emit_pending_dds inst elapsed now =
    let r = pending_dds inst.router_id inst.interfaces elapsed now in
    (record inst { interfaces = r.0 }, r.1)

abbrev may_request : NeighborState → Bool
may_request exchange = true
may_request loading = true
may_request _ = false

-- A neighbor whose requests are outstanding and were not sent for the interval.
unfoldable pub lsr_due : ℕ → ℕ → Neighbor → Bool
lsr_due rxmt_interval now n =
    may_request n.state
    && (not (is_empty n.ls_request_list)
        && leb (max rxmt_interval 1 * second) (now - n.last_lsr_sent))

unfoldable pub pending_lsrs_on :
    Ipv4Addr
    → OspfInterface
    → ℕ
    → List (Ipv4Addr × Neighbor)
    → List (Ipv4Addr × Neighbor) × List Response
pending_lsrs_on rid i now [] = ([], [])
pending_lsrs_on rid i now ((id, n) ∷ ns) =
    let rest = pending_lsrs_on rid i now ns in
    if lsr_due i.rxmt_interval now n
    then (
      (id, record n { last_lsr_sent = now }) ∷ rest.0,
      (i.sw_if_index, n.address, lsr_packet rid i n) ∷ rest.1,
    )
    else ((id, n) ∷ rest.0, rest.1)

unfoldable pub pending_lsrs : Ipv4Addr → List OspfInterface → ℕ → List OspfInterface × List Response
pending_lsrs rid [] now = ([], [])
pending_lsrs rid (i ∷ is) now =
    let first = pending_lsrs_on rid i now i.neighbors in
    let rest = pending_lsrs rid is now in
    (record i { neighbors = first.0 } ∷ rest.0, first.1 ++ rest.1)

unfoldable pub emit_pending_lsrs : OspfInstance → ℕ → OspfInstance × List Response
emit_pending_lsrs inst now =
    let r = pending_lsrs inst.router_id inst.interfaces now in
    (record inst { interfaces = r.0 }, r.1)
