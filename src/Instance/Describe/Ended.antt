-- ===== src/Instance/Describe/Ended.antt =====
-- What the DD packets of a neighbor come to, one by one through `process_dd` (src/instance.rs).
use ospfd.Common.{
  ℕ, ◌≤◌, ◌≡◌, refl, ap, ◌∙◌, arith, false, Option, none, some, List, [], ◌∷◌, ◌++◌, ◌*◌, length,
  Ipv4Addr,
}
use mathlib.Core.Path.{subst}
use ospfd.Packet.Header.{OspfHeader}
use ospfd.Packet.Exchange.{DbDescPacket, has_more}
use ospfd.Neighbor.Machine.{Neighbor, exchange}
use ospfd.Interface.Machine.{OspfInterface}
use ospfd.Instance.State.{OspfInstance, get_elem?}
use ospfd.Instance.Describe.{reply}
use ospfd.Instance.Describe.Run.{run}
use ospfd.Instance.Describe.Complete.{IsOver, run-append, exchange_ends, described_all}
use ospfd.Instance.Update.Loading.{peer_of}
use ospfd.Instance.Describe.Feed.{feed, headers_in, no_peer, feed_at-reply, feed-run, feed-append}

-- A neighbor of the instance that is in Exchange is Loading or Full once `process_dd` took a DD packet
-- of it for each 60 headers that were left to describe, and at least one, and then one without the
-- M flag, whatever else they hold and whenever they arrive.
pub feed-IsOver :
    (idx : ℕ) (src : Ipv4Addr) (h : OspfHeader) (inst : OspfInstance) (n : Neighbor)
    (ps : List (DbDescPacket × ℕ)) (last : DbDescPacket) (now : ℕ)
    → peer_of inst.interfaces idx h.router_id ≡ some n
    → n.state ≡ exchange
    → 1 ≤ length ps
    → length n.db_summary_list ≤ 60 * length ps
    → has_more last ≡ false
    → (m : Neighbor) × (peer_of
          (feed idx src h inst (ps ++ ((last, now) ∷ []))).0.interfaces
          idx
          h.router_id
        ≡ some m)
      × IsOver m
unfolding feed run
feed-IsOver idx src h inst n ps last now found s k l m =
    by_interface (get_elem? inst.interfaces idx) refl
  where
    after : OspfInstance
    after = (feed idx src h inst (ps ++ ((last, now) ∷ []))).0

    by_interface :
        (o : Option OspfInterface)
        → get_elem? inst.interfaces idx ≡ o
        → (m : Neighbor) × (peer_of after.interfaces idx h.router_id ≡ some m) × IsOver m
    by_interface none e = no_peer inst.interfaces idx h.router_id n e found
    by_interface (some j) e =
        let before = (feed idx src h inst ps).0 in
        let (rs, same, there, _) = feed-run idx src h j inst ps n found in
        let (r, dd, peer, _) =
          feed_at-reply idx src h j before last now (run j n rs) (get_elem? before.interfaces idx)
            refl there in
        let over = exchange_ends j n rs r s (rw same k) (rw same l) (rw dd m) in
        (
          (reply j r (run j n rs)).0,
          ap (λ (q : OspfInstance). peer_of q.interfaces idx h.router_id)
                (feed-append idx src h j inst ps ((last, now) ∷ []))
              ∙ peer,
          subst IsOver (run-append j n rs (r ∷ [])) over,
        )

-- A neighbor of the instance that is in Exchange, that our last description was not sent to, and
-- that is Loading or Full after `process_dd` took some DD packets of it, was sent every header that
-- was left to describe, in order and once, by the DD packets among the responses.
pub headers_in-feed :
    (idx : ℕ) (src : Ipv4Addr) (h : OspfHeader) (inst : OspfInstance) (n m : Neighbor)
    (ps : List (DbDescPacket × ℕ))
    → peer_of inst.interfaces idx h.router_id ≡ some n
    → n.state ≡ exchange
    → n.sent_m_clear ≡ false
    → peer_of (feed idx src h inst ps).0.interfaces idx h.router_id ≡ some m
    → IsOver m
    → headers_in (feed idx src h inst ps).1 ≡ n.db_summary_list
headers_in-feed idx src h inst n m ps found s k there over =
    by_interface (get_elem? inst.interfaces idx) refl
  where
    by_interface :
        (o : Option OspfInterface)
        → get_elem? inst.interfaces idx ≡ o
        → headers_in (feed idx src h inst ps).1 ≡ n.db_summary_list
    by_interface none e = no_peer inst.interfaces idx h.router_id n e found
    by_interface (some j) e =
        let (rs, _, after, sent) = feed-run idx src h j inst ps n found in
        let same : m ≡ run j n rs = ground (arith, there, after) in
        sent ∙ described_all j n rs s k (subst IsOver same over)
