-- ===== src/Interface/Election/Independence.antt =====
-- The election does not depend on the order in which the candidates are collected, which for a
-- HashMap of neighbors is arbitrary.
use Prim.Native.Nat.{Ordering}
use ospfd.Common.{◌≡◌, ap, arith, Bool, not, ◌&&◌, ◌==◌, List, Ipv4Addr}
use ospfd.Interface.Election.{
  Candidate, filter, max_by, claims_dr, eligible, by_priority, by_bdr_claim, address_of, elect_bdr,
  elect_declarer, elect_other, elect,
}
use ospfd.Interface.Election.Maximum.{
  In, In-filter, filter-In, IsOrder, max_by-Greatest, Greatest-unique, by_priority-IsOrder,
  by_bdr_claim-IsOrder,
}

-- Two lists of the same candidates, in any order.
pub record SameCandidates (cs ds : List Candidate) : Type 0 where
  pub to : (c : Candidate) → In c cs → In c ds
  pub from : (c : Candidate) → In c ds → In c cs

abbrev pub DistinctIds : List Candidate → Type 0
DistinctIds cs = (a b : Candidate) → In a cs → In b cs → a.router_id ≡ b.router_id → a ≡ b

filter-SameCandidates :
    (p : Candidate → Bool) (cs ds : List Candidate)
    → SameCandidates cs ds
    → SameCandidates (filter p cs) (filter p ds)
filter-SameCandidates p cs ds s = record {
  to = λ c m. let (i, h) = filter-In p c cs m in In-filter p c ds (s.to c i) h;
  from = λ c m. let (i, h) = filter-In p c ds m in In-filter p c cs (s.from c i) h;
}

filter-DistinctIds :
    (p : Candidate → Bool) (cs : List Candidate) → DistinctIds cs → DistinctIds (filter p cs)
filter-DistinctIds p cs d a b m n = d a b (filter-In p a cs m).0 (filter-In p b cs n).0

best_same :
    (cmp : Candidate → Candidate → Ordering) (cs ds : List Candidate)
    → IsOrder cmp
    → ((a b : Candidate) → cmp a b ≡ Ordering.eq → a.router_id ≡ b.router_id)
    → SameCandidates cs ds
    → DistinctIds cs
    → address_of (max_by cmp cs) ≡ address_of (max_by cmp ds)
best_same cmp cs ds o ids s d = ap address_of (
    Greatest-unique cmp o cs ds _ _ s.to s.from (λ a b m n e. d a b m n (ids a b e))
      (max_by-Greatest cmp o cs) (max_by-Greatest cmp o ds))

by_priority_id : (a b : Candidate) → by_priority a b ≡ Ordering.eq → a.router_id ≡ b.router_id
by_priority_id a b h = ground arith

by_bdr_claim_id : (a b : Candidate) → by_bdr_claim a b ≡ Ordering.eq → a.router_id ≡ b.router_id
by_bdr_claim_id a b h = ground arith

module _ (cs ds : List Candidate) (s : SameCandidates cs ds) (d : DistinctIds cs) where
  able : SameCandidates (filter eligible cs) (filter eligible ds)
  able = filter-SameCandidates eligible cs ds s

  able_ids : DistinctIds (filter eligible cs)
  able_ids = filter-DistinctIds eligible cs d

  elect_bdr_same : elect_bdr cs ≡ elect_bdr ds
  unfolding elect_bdr
  elect_bdr_same =
      best_same by_bdr_claim _ _ by_bdr_claim-IsOrder by_bdr_claim_id
        (filter-SameCandidates (λ c. not (claims_dr c)) _ _ able)
        (filter-DistinctIds (λ c. not (claims_dr c)) _ able_ids)

  elect_declarer_same : elect_declarer cs ≡ elect_declarer ds
  unfolding elect_declarer
  elect_declarer_same =
      best_same by_priority _ _ by_priority-IsOrder by_priority_id
        (filter-SameCandidates claims_dr _ _ able) (filter-DistinctIds claims_dr _ able_ids)

  elect_other_same : (a : Ipv4Addr) → elect_other cs a ≡ elect_other ds a
  unfolding elect_other
  elect_other_same a =
      best_same by_priority _ _ by_priority-IsOrder by_priority_id
        (filter-SameCandidates (λ c. eligible c && not (c.ip_address == a)) cs ds s)
        (filter-DistinctIds (λ c. eligible c && not (c.ip_address == a)) cs d)

  -- Two lists of the same candidates, whose router ids are different, elect the same DR and BDR.
  pub elect_same : elect cs ≡ elect ds
  unfolding elect
  elect_same = rw (elect_bdr_same, elect_declarer_same, elect_other_same)
