-- ===== src/Instance/Describe/Feed.antt =====
-- The Database Description packets of one neighbor, one by one through `process_dd` (src/instance.rs),
-- which takes the interface from the instance at each.
use ospfd.Common.{
  ℕ, suc, ◌≡◌, refl, sym, ap, ◌∙◌, arith, Bool, true, false, Option, none, some, List, [], ◌∷◌,
  ◌++◌, length, set, Ipv4Addr, if◌then◌else◌,
}
use ospfd.Packet.Header.{OspfHeader}
use ospfd.Packet.Codec.{OspfPacket}
use mathlib.Core.List.{append-nil, append_assoc}
use ospfd.Packet.Lsa.Header.{LsaHeader}
use ospfd.Packet.Exchange.{DbDescPacket}
use ospfd.Neighbor.Machine.{Neighbor}
use ospfd.Interface.Machine.{OspfInterface}
use ospfd.Spf.Table.{get, put, get-put}
use ospfd.Instance.State.{OspfInstance, Response, get_elem?}
use ospfd.Instance.Describe.{
  Received, received, reply, answer_dd, build_dd, dd_at, responses_of, lsr_packet, process_dd,
}
use ospfd.Instance.Stored.{recover}
use ospfd.Instance.Describe.Run.{run, described, headers_of}
use ospfd.Instance.Update.Loading.{peer_of, get_elem-set}
use ospfd.Instance.Stored.Kept.{recover-interfaces}

abbrev feed_at :
    ℕ
    → Ipv4Addr
    → OspfHeader
    → OspfInstance
    → DbDescPacket
    → ℕ
    → Option OspfInterface
    → OspfInstance × List Response
feed_at idx src h inst p now none = (inst, [])
feed_at idx src h inst p now (some i) = process_dd inst idx i src h p now

-- The instance after each packet was received at its time, with the same header, and what was sent.
unfoldable pub feed :
    ℕ
    → Ipv4Addr
    → OspfHeader
    → OspfInstance
    → List (DbDescPacket × ℕ)
    → OspfInstance × List Response
feed idx src h inst [] = (inst, [])
feed idx src h inst ((p, now) ∷ ps) =
    let a = feed_at idx src h inst p now (get_elem? inst.interfaces idx) in
    let rest = feed idx src h a.0 ps in (rest.0, a.1 ++ rest.1)

abbrev dd_headers : OspfPacket → List LsaHeader
dd_headers (OspfPacket.database_description _ p) = p.lsa_headers
dd_headers _ = []

-- The headers that the DD packets of the responses describe.
unfoldable pub headers_in : List Response → List LsaHeader
headers_in [] = []
headers_in ((_, _, p) ∷ rs) = dd_headers p ++ headers_in rs

headers_in-append : (rs qs : List Response) → headers_in (rs ++ qs) ≡ headers_in rs ++ headers_in qs
unfolding headers_in
headers_in-append [] qs = refl
headers_in-append ((_, _, p) ∷ rs) qs =
    ap (λ xs. dd_headers p ++ xs) (headers_in-append rs qs)
    ∙ sym (append_assoc (dd_headers p) (headers_in rs) (headers_in qs))

headers_in-responses :
    (rid : Ipv4Addr) (i : OspfInterface) (dst : Ipv4Addr) (n : Neighbor) (b : Bool)
    (o : Option DbDescPacket)
    → headers_in (
        responses_of rid i dst o
        ++ (if b then (i.sw_if_index, dst, lsr_packet rid i n) ∷ [] else []))
      ≡ headers_of o
unfolding headers_in lsr_packet
headers_in-responses rid i dst n true none = refl
headers_in-responses rid i dst n false none = refl
headers_in-responses rid i dst n true (some p) = append-nil p.lsa_headers
headers_in-responses rid i dst n false (some p) = append-nil p.lsa_headers

-- What a packet makes of a neighbor does not depend on the interface.
reply_any : (i j : OspfInterface) (r : Received) (n : Neighbor) → (reply i r n).0 ≡ (reply j r n).0
unfolding reply answer_dd build_dd
reply_any i j r n = ground arith

headers_any :
    (i j : OspfInterface) (r : Received) (n : Neighbor)
    → headers_of (reply i r n).1.0 ≡ headers_of (reply j r n).1.0
unfolding reply answer_dd build_dd
headers_any i j r n = ground arith

peer-set :
    (is : List OspfInterface) (idx : ℕ) (id : Ipv4Addr) (i : OspfInterface) (n : Neighbor)
    → get_elem? is idx ≡ some i
    → peer_of (set is idx (record i { neighbors = put id n i.neighbors })) idx id ≡ some n
unfolding peer_of
peer-set is idx id i n e =
    rw (get_elem-set is idx i (record i { neighbors = put id n i.neighbors }) e)
      (ground (arith, get-put id id n i.neighbors))

module _ (is : List OspfInterface) (idx : ℕ) (id : Ipv4Addr) (n : Neighbor) where
  pub no_peer : {A : Type 0} → get_elem? is idx ≡ none → peer_of is idx id ≡ some n → A
  unfolding peer_of
  no_peer e found = ground (arith, e, found)

  peer_there :
      {i : OspfInterface}
      → get_elem? is idx ≡ some i
      → peer_of is idx id ≡ some n
      → get id i.neighbors ≡ some n
  unfolding peer_of
  peer_there e found = ground (arith, e, found)

module _ (idx : ℕ) (src : Ipv4Addr) (h : OspfHeader) (j : OspfInterface) where
  pub feed_at-reply :
      (inst : OspfInstance) (p : DbDescPacket) (now : ℕ) (n : Neighbor) (o : Option OspfInterface)
      → get_elem? inst.interfaces idx ≡ o
      → peer_of inst.interfaces idx h.router_id ≡ some n
      → (r : Received) × (r.dd ≡ p)
        × (peer_of (feed_at idx src h inst p now o).0.interfaces idx h.router_id
            ≡ some (reply j r n).0)
        × (headers_in (feed_at idx src h inst p now o).1 ≡ headers_of (reply j r n).1.0)
  unfolding process_dd
  feed_at-reply inst p now n none e found = no_peer inst.interfaces idx h.router_id n e found
  feed_at-reply inst p now n (some i) e found =
      let there = peer_there inst.interfaces idx h.router_id n e found in
      let inst1 = recover inst i.area_id p.lsa_headers now in
      let same = recover-interfaces inst i.area_id p.lsa_headers now in
      let r = received inst1 i h p now in
      let a = reply i r n in
      (
        r,
        refl,
        ap (λ q. peer_of (dd_at inst1 idx i src r q).0.interfaces idx h.router_id) there
            ∙ peer-set inst1.interfaces idx h.router_id i a.0 (ap (λ is. get_elem? is idx) same ∙ e)
            ∙ ap some (reply_any i j r n),
        ap (λ q. headers_in (dd_at inst1 idx i src r q).1) there
            ∙ headers_in-responses inst1.router_id i src a.0 a.1.1 a.1.0
            ∙ headers_any i j r n,
      )

  -- The neighbor is there after the packets, as a run of them makes it, and was described what the
  -- run describes.
  pub feed-run :
      (inst : OspfInstance) (ps : List (DbDescPacket × ℕ)) (n : Neighbor)
      → peer_of inst.interfaces idx h.router_id ≡ some n
      → (rs : List Received) × (length rs ≡ length ps)
        × (peer_of (feed idx src h inst ps).0.interfaces idx h.router_id ≡ some (run j n rs))
        × (headers_in (feed idx src h inst ps).1 ≡ described j n rs)
  unfolding feed run described headers_in
  feed-run inst [] n found = ([], refl, found, refl)
  feed-run inst ((p, now) ∷ ps) n found =
      let o = get_elem? inst.interfaces idx in
      let a = feed_at idx src h inst p now o in
      let (r, _, there, first) = feed_at-reply inst p now n o refl found in
      let (rs, same, after, rest) = feed-run a.0 ps (reply j r n).0 there in
      (
        r ∷ rs,
        ap suc same,
        after,
        headers_in-append a.1 (feed idx src h a.0 ps).1
            ∙ ap (λ xs. xs ++ headers_in (feed idx src h a.0 ps).1) first
            ∙ ap (λ xs. headers_of (reply j r n).1.0 ++ xs) rest,
      )

  pub feed-append :
      (inst : OspfInstance) (ps qs : List (DbDescPacket × ℕ))
      → (feed idx src h inst (ps ++ qs)).0 ≡ (feed idx src h (feed idx src h inst ps).0 qs).0
  unfolding feed
  feed-append inst [] qs = refl
  feed-append inst ((p, now) ∷ ps) qs =
      feed-append (feed_at idx src h inst p now (get_elem? inst.interfaces idx)).0 ps qs
