-- ===== src/Instance/Describe/Run.antt =====
-- A neighbor that is sent Database Description packets.
use ospfd.Common.{
  ℕ, zero, suc, ◌≤◌, ◌≡◌, refl, ap, ◌∙◌, arith, Option, none, some, List, [], ◌∷◌, ◌++◌, take, drop,
}
use mathlib.Core.List.{append_assoc}
use ospfd.Packet.Lsa.Header.{LsaHeader}
use ospfd.Packet.Exchange.{DbDescPacket}
use ospfd.Neighbor.Machine as Peer
use ospfd.Neighbor.Machine.{Neighbor, NeighborState, exchange, loading, full, rank}
use ospfd.Interface.Machine.{OspfInterface}
use ospfd.Instance.Describe.{Received, advance, receive_dd, build_dd, answer_dd, reply}

-- The neighbor after it was sent the packets one by one, and the headers that we sent in
-- the answers.
unfoldable pub run : OspfInterface → Neighbor → List Received → Neighbor
run i n [] = n
run i n (r ∷ rs) = run i (reply i r n).0 rs

abbrev pub headers_of : Option DbDescPacket → List LsaHeader
headers_of none = []
headers_of (some p) = p.lsa_headers

unfoldable pub described : OspfInterface → Neighbor → List Received → List LsaHeader
described i n [] = []
described i n (r ∷ rs) = let a = reply i r n in headers_of a.1.0 ++ described i a.0 rs

take-drop : {A : Type 0} (k : ℕ) (xs : List A) → take k xs ++ drop k xs ≡ xs
take-drop zero xs = refl
take-drop (suc k) [] = refl
take-drop (suc k) (x ∷ xs) = ap (λ ys. x ∷ ys) (take-drop k xs)

module _ (i : OspfInterface) where
  receive_rank : (r : Received) (n : Neighbor) → 5 ≤ rank n.state → 5 ≤ rank (receive_dd r n).state
  unfolding receive_dd advance Peer.handle_event
  receive_rank r n h = ground arith

  receive_list :
      (r : Received) (n : Neighbor)
      → 5 ≤ rank n.state
      → (receive_dd r n).db_summary_list ≡ n.db_summary_list
  unfolding receive_dd advance Peer.handle_event
  receive_list r n h = ground arith

  answer_rank : (n : Neighbor) → 5 ≤ rank n.state → 5 ≤ rank (answer_dd i n).0.state
  unfolding answer_dd build_dd
  answer_rank n h = ground arith

  answer_list :
      (n : Neighbor)
      → 5 ≤ rank n.state
      → headers_of (answer_dd i n).1 ++ (answer_dd i n).0.db_summary_list ≡ n.db_summary_list
  unfolding answer_dd build_dd
  answer_list n h = ground (arith, take-drop 60 n.db_summary_list)

  rank-reply : (r : Received) (n : Neighbor) → 5 ≤ rank n.state → 5 ≤ rank (reply i r n).0.state
  unfolding reply
  rank-reply r n h =
      let deep = answer_rank (receive_dd r n) (receive_rank r n h) in ground (arith, deep)

  headers_of-reply :
      (r : Received) (n : Neighbor)
      → 5 ≤ rank n.state
      → headers_of (reply i r n).1.0 ++ (reply i r n).0.db_summary_list ≡ n.db_summary_list
  unfolding reply
  headers_of-reply r n h =
      let same = answer_list (receive_dd r n) (receive_rank r n h) ∙ receive_list r n h in
      ground (arith, same)

  -- From Exchange on, what was described to a neighbor, in the order of the packets, followed by what
  -- is left to describe, is what was to be described: nothing is lost and nothing is sent twice.
  pub described_lem :
      (n : Neighbor) (rs : List Received)
      → 5 ≤ rank n.state
      → described i n rs ++ (run i n rs).db_summary_list ≡ n.db_summary_list
  unfolding described run
  described_lem n [] h = refl
  described_lem n (r ∷ rs) h =
      let a = reply i r n in
      append_assoc (headers_of a.1.0) (described i a.0 rs) (run i a.0 rs).db_summary_list
      ∙ ap (λ xs. headers_of a.1.0 ++ xs) (described_lem a.0 rs (rank-reply r n h))
      ∙ headers_of-reply r n h
