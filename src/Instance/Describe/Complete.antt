-- ===== src/Instance/Describe/Complete.antt =====
-- When the exchange of descriptions is over.
use mathlib.Core.List.{append-nil}
use ospfd.Common.{
  ℕ, suc, ◌≤◌, ◌≡◌, refl, sym, ap, ◌∙◌, arith, Bool, true, false, ◌⊎◌, inl, inr, List, [], ◌∷◌,
  ◌++◌, drop, ◌*◌, ◌-◌, length, length-drop, if◌then◌else◌, Bool-cases,
}
use mathlib.Core.Path.{subst}
use ospfd.Packet.Exchange.{has_more}
use ospfd.Neighbor.Machine as Peer
use ospfd.Neighbor.Machine.{Neighbor, exchange, rank}
use ospfd.Interface.Machine.{OspfInterface}
use ospfd.Instance.Describe.{Received, advance, receive_dd, build_dd, answer_dd, reply, is_empty}
use ospfd.Instance.Describe.Run.{run, described, described_lem}

-- Exchange is over: the neighbor is Loading or Full.
abbrev pub IsOver : Neighbor → Type 0
IsOver n = 6 ≤ rank n.state

length_empty : {A : Type 0} (xs : List A) → is_empty xs ≡ false → 1 ≤ length xs
length_empty [] h = cc
length_empty (x ∷ xs) h = omega arith

empty-eq : {A : Type 0} (xs : List A) → is_empty xs ≡ true → xs ≡ []
empty-eq [] h = refl
empty-eq (x ∷ xs) h = cc

enough :
    {A : Type 0} (k : ℕ) (xs ys : List A) (sent sent1 : Bool)
    → ys ≡ drop 60 xs
    → sent1 ≡ (if is_empty (drop 60 xs) then true else sent)
    → (sent ≡ true) ⊎ ((1 ≤ suc k) × (length xs ≤ 60 * suc k))
    → (sent1 ≡ true) ⊎ ((1 ≤ k) × (length ys ≤ 60 * k))
enough k xs ys sent sent1 e f (inl s) = inl (ground arith)
enough k xs ys sent sent1 e f (inr (_, l)) = elim (Bool-cases (is_empty (drop 60 xs))) [
  | inl none_left ↦ inl (ground arith)
  | inr more ↦
      let short : length ys ≡ length xs - 60 = ap length e ∙ length-drop 60 xs in
      let some_left : 1 ≤ length ys = rw e (length_empty (drop 60 xs) more) in
      inr (omega arith, omega arith)
]

module _ (i : OspfInterface) where
  abbrev core : Received → Neighbor → Neighbor
  core r n = (answer_dd i (receive_dd r n)).0

  core-IsOver :
      (r : Received) (n : Neighbor)
      → IsOver n
      → (IsOver (core r n)) × ((core r n).db_summary_list ≡ n.db_summary_list)
  unfolding receive_dd advance answer_dd
  core-IsOver r n h = ground arith

  receive_exchange :
      (r : Received) (n : Neighbor)
      → n.state ≡ exchange
      → (((IsOver (receive_dd r n)) × (n.sent_m_clear ≡ true))
          ⊎ ((receive_dd r n).state ≡ exchange))
        × ((receive_dd r n).db_summary_list ≡ n.db_summary_list)
        × ((receive_dd r n).sent_m_clear ≡ n.sent_m_clear)
  unfolding receive_dd advance Peer.handle_event
  receive_exchange r n h = ground arith

  answer_over : (m : Neighbor) → IsOver m → (answer_dd i m).0 ≡ m
  unfolding answer_dd
  answer_over m h = ground arith

  answer_exchange :
      (m : Neighbor)
      → m.state ≡ exchange
      → ((answer_dd i m).0.state ≡ exchange)
        × ((answer_dd i m).0.db_summary_list ≡ drop 60 m.db_summary_list)
        × ((answer_dd i m).0.sent_m_clear
            ≡ (if is_empty (drop 60 m.db_summary_list) then true else m.sent_m_clear))
  unfolding answer_dd build_dd
  answer_exchange m h = ground arith

  -- One packet in Exchange: it is over, which needs our last description to have been sent, or the
  -- next headers are described.
  core_exchange :
      (r : Received) (n : Neighbor)
      → n.state ≡ exchange
      → (IsOver (core r n)
          × (n.sent_m_clear ≡ true)
          × ((core r n).db_summary_list ≡ n.db_summary_list))
        ⊎ (((core r n).state ≡ exchange)
            × ((core r n).db_summary_list ≡ drop 60 n.db_summary_list)
            × ((core r n).sent_m_clear
                ≡ (if is_empty (drop 60 n.db_summary_list) then true else n.sent_m_clear)))
  core_exchange r n h =
      let m = receive_dd r n in
      let (after, list, sent) = receive_exchange r n h in
      elim after [
        | inl (over, t) ↦
            let same = answer_over m over in
            inl (
              subst IsOver (sym same) over,
              t,
              ap (λ (k : Neighbor). k.db_summary_list) same ∙ list,
            )
        | inr still ↦
            let (s, l, t) = answer_exchange m still in
            inr (
              s,
              l ∙ ap (λ xs. drop 60 xs) list,
              t
                  ∙ ap (λ xs. if is_empty (drop 60 xs) then true else m.sent_m_clear) list
                  ∙ ap (λ b. if is_empty (drop 60 n.db_summary_list) then true else b) sent,
            )
      ]

  core_last :
      (r : Received) (n : Neighbor)
      → n.state ≡ exchange
      → n.sent_m_clear ≡ true
      → has_more r.dd ≡ false
      → IsOver (core r n)
  unfolding receive_dd advance answer_dd build_dd Peer.handle_event
  core_last r n h s m = ground arith

  abbrev step : Received → Neighbor → Neighbor
  step r n = (reply i r n).0

  -- The time of the last LSR is not read here.
  reply-core :
      (r : Received) (n : Neighbor)
      → ((step r n).state ≡ (core r n).state)
        × ((step r n).db_summary_list ≡ (core r n).db_summary_list)
        × ((step r n).sent_m_clear ≡ (core r n).sent_m_clear)
  unfolding reply
  reply-core r n = ground arith

  step-IsOver :
      (r : Received) (n : Neighbor)
      → IsOver n
      → (IsOver (step r n)) × ((step r n).db_summary_list ≡ n.db_summary_list)
  step-IsOver r n h = let (s, l, _) = reply-core r n in rw s (rw l (core-IsOver r n h))

  step_exchange :
      (r : Received) (n : Neighbor)
      → n.state ≡ exchange
      → (IsOver (step r n)
          × (n.sent_m_clear ≡ true)
          × ((step r n).db_summary_list ≡ n.db_summary_list))
        ⊎ (((step r n).state ≡ exchange)
            × ((step r n).db_summary_list ≡ drop 60 n.db_summary_list)
            × ((step r n).sent_m_clear
                ≡ (if is_empty (drop 60 n.db_summary_list) then true else n.sent_m_clear)))
  step_exchange r n h = let (s, l, t) = reply-core r n in rw s (rw l (rw t (core_exchange r n h)))

  last-IsOver :
      (r : Received) (n : Neighbor)
      → n.state ≡ exchange
      → n.sent_m_clear ≡ true
      → has_more r.dd ≡ false
      → IsOver (step r n)
  last-IsOver r n h s m = rw ((reply-core r n).0) (core_last r n h s m)

  run-IsOver : (n : Neighbor) (rs : List Received) → IsOver n → IsOver (run i n rs)
  unfolding run
  run-IsOver n [] h = h
  run-IsOver n (r ∷ rs) h = run-IsOver (step r n) rs (step-IsOver r n h).0

  -- After enough packets the last description is sent.
  sent_after :
      (n : Neighbor) (rs : List Received)
      → n.state ≡ exchange
      → (n.sent_m_clear ≡ true) ⊎ ((1 ≤ length rs) × (length n.db_summary_list ≤ 60 * length rs))
      → IsOver (run i n rs) ⊎ (((run i n rs).state ≡ exchange) × ((run i n rs).sent_m_clear ≡ true))
  unfolding run
  sent_after n [] h e = ground arith
  sent_after n (r ∷ rs) h e = elim (step_exchange r n h) [
    | inl (over, _, _) ↦ inl (run-IsOver (step r n) rs over)
    | inr (still, list, sent) ↦ sent_after (step r n) rs still (
        enough (length rs) n.db_summary_list (step r n).db_summary_list n.sent_m_clear
          (step r n).sent_m_clear list sent e)
  ]

  pub run-append :
      (n : Neighbor) (rs qs : List Received) → run i n (rs ++ qs) ≡ run i (run i n rs) qs
  unfolding run
  run-append n [] qs = refl
  run-append n (r ∷ rs) qs = run-append (step r n) rs qs

  -- A neighbor in Exchange is Loading or Full once it has sent a DD packet for each 60 headers that we
  -- have to describe, and at least one, and then one without the M flag, whatever else they hold.
  pub exchange_ends :
      (n : Neighbor) (rs : List Received) (last : Received)
      → n.state ≡ exchange
      → 1 ≤ length rs
      → length n.db_summary_list ≤ 60 * length rs
      → has_more last.dd ≡ false
      → IsOver (run i n (rs ++ (last ∷ [])))
  unfolding run
  exchange_ends n rs last h k l m =
      subst IsOver (sym (run-append n rs (last ∷ []))) (elim (sent_after n rs h (inr (k, l))) [
        | inl over ↦ (step-IsOver last (run i n rs) over).0
        | inr (still, sent) ↦ last-IsOver last (run i n rs) still sent m
      ])

  -- In Exchange with nothing left to describe if our last description was sent, or over with
  -- nothing left.
  abbrev Owes : Neighbor → Type 0
  Owes n =
      ((n.state ≡ exchange) × (n.sent_m_clear ≡ true → n.db_summary_list ≡ []))
      ⊎ (IsOver n × (n.db_summary_list ≡ []))

  step-Owes : (r : Received) (n : Neighbor) → Owes n → Owes (step r n)
  step-Owes r n (inr (over, e)) = let s = step-IsOver r n over in inr (s.0, s.1 ∙ e)
  step-Owes r n (inl (h, e)) = elim (step_exchange r n h) [
    | inl (over, sent, list) ↦ inr (over, list ∙ e sent)
    | inr (still, list, sent) ↦ inl (still, λ t. drained n e (list) (sym sent ∙ t))
  ]
    where
      drained :
          (n : Neighbor)
          → (n.sent_m_clear ≡ true → n.db_summary_list ≡ [])
          → {xs : List ospfd.Packet.Lsa.Header.LsaHeader} → xs ≡ drop 60 n.db_summary_list
          → (if is_empty (drop 60 n.db_summary_list) then true else n.sent_m_clear) ≡ true
          → xs ≡ []
      drained n e list t = ground (arith, e, empty-eq (drop 60 n.db_summary_list))

  run-Owes : (n : Neighbor) (rs : List Received) → Owes n → Owes (run i n rs)
  unfolding run
  run-Owes n [] o = o
  run-Owes n (r ∷ rs) o = run-Owes (step r n) rs (step-Owes r n o)

  -- A neighbor in Exchange that our last description was not sent to, and that is Loading or Full
  -- after some DD packets, was described every header that was left to describe, in order.
  pub described_all :
      (n : Neighbor) (rs : List Received)
      → n.state ≡ exchange
      → n.sent_m_clear ≡ false
      → IsOver (run i n rs)
      → described i n rs ≡ n.db_summary_list
  described_all n rs h s over =
      let none_left : (run i n rs).db_summary_list ≡ [] =
        ground (arith, run-Owes n rs (inl (h, λ t. cc))) in
      sym (append-nil (described i n rs))
      ∙ ap (λ xs. described i n rs ++ xs) (sym none_left)
      ∙ described_lem i n rs (ground arith)
