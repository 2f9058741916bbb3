-- ===== src/Interface/Machine/Candidates.antt =====
-- The election as an interface runs it: over the neighbors in any order, for eligible candidates.
use ospfd.Common.{
  In-append, append-In, ℕ, zero, suc, ◌<◌, ◌≡◌, ◌≢◌, refl, sym, ap, ◌∙◌, arith, ◌⊎◌, inl, inr, true,
  Bool-cases, List, [], ◌∷◌, ◌++◌, map, Ipv4Addr, unspecified,
}
use mathlib.Core.Path.{subst}
use ospfd.Neighbor.Machine.{Neighbor}
use ospfd.Interface.Election.{Candidate, filter, self_candidate, elect, role_changed, election_loop}
use ospfd.Interface.Election.Maximum.{In, In-filter, filter-In}
use ospfd.Interface.Election.Independence.{SameCandidates, DistinctIds, elect_same}
use ospfd.Interface.Election.Roles.{IsRole, elect_roles}
use ospfd.Interface.Machine.{OspfInterface, at_least_two_way, candidate_of, candidates, elected}

module _ {A B : Type 0} (f : A → B) where
  In-map : (x : A) (xs : List A) → In x xs → In (f x) (map f xs)
  In-map x [] m = absurd m
  In-map x (y ∷ ys) (inl e) = inl (ap f e)
  In-map x (y ∷ ys) (inr m) = inr (In-map x ys m)

  map-In : (y : B) (xs : List A) → In y (map f xs) → (x : A) × In x xs × (y ≡ f x)
  map-In y [] m = absurd m
  map-In y (x ∷ xs) (inl e) = (x, inl refl, e)
  map-In y (x ∷ xs) (inr m) = let (z, i, e) = map-In y xs m in (z, inr i, e)

-- The collected candidates of a part of the neighbors are among those of the whole.
carry :
    (xs ys : List (Ipv4Addr × Neighbor)) (rest : List Candidate) (c : Candidate)
    → ((x : Ipv4Addr × Neighbor) → In x xs → In x ys)
    → In c (map candidate_of (filter at_least_two_way xs) ++ rest)
    → In c (map candidate_of (filter at_least_two_way ys) ++ rest)
carry xs ys rest c sub m = elim (append-In c _ rest m) [
  | inr r ↦ In-append c _ rest (inr r)
  | inl l ↦ moved (map-In candidate_of c _ l)
]
  where
    moved :
        (x : Ipv4Addr × Neighbor) × In x (filter at_least_two_way xs) × (c ≡ candidate_of x)
        → In c (map candidate_of (filter at_least_two_way ys) ++ rest)
    moved (x, i, e) =
        let (j, h) = filter-In at_least_two_way x xs i in
        In-append c _ rest
          (inl (rw e (In-map candidate_of x _ (In-filter at_least_two_way x ys (sub x j) h))))

module _ (i : OspfInterface) (ys : List (Ipv4Addr × Neighbor))
    (to : (x : Ipv4Addr × Neighbor) → In x i.neighbors → In x ys)
    (from : (x : Ipv4Addr × Neighbor) → In x ys → In x i.neighbors)
    (ids : (self : Ipv4Addr × Ipv4Addr) → DistinctIds (candidates i self)) where
  candidates_same :
      (self : Ipv4Addr × Ipv4Addr)
      → SameCandidates (candidates i self) (candidates (record i { neighbors = ys }) self)
  unfolding candidates
  candidates_same self = record {
    to = λ c m. carry i.neighbors ys _ c to m;
    from = λ c m. carry ys i.neighbors _ c from m;
  }

  loop_same :
      (more : ℕ) (self : Ipv4Addr × Ipv4Addr)
      → election_loop more (candidates i) i.address self
        ≡ election_loop more (candidates (record i { neighbors = ys })) i.address self
  unfolding election_loop
  loop_same zero self = elect_same _ _ (candidates_same self) (ids self)
  loop_same (suc more) self =
      let e = elect_same _ _ (candidates_same self) (ids self) in
      ground (arith, e, loop_same more (elect (candidates i self)))

  -- The elected DR and BDR are the same whatever the order in which the map of neighbors is
  -- gone through, if the candidates have different router ids.
  pub elected_same : elected (record i { neighbors = ys }) ≡ elected i
  unfolding elected
  elected_same = sym (loop_same 1 (i.dr, i.bdr))

-- A role is held by none, by ourselves with a positive priority, or by a neighbor in 2-Way or
-- better with a positive priority.
abbrev pub HeldBy : OspfInterface → Ipv4Addr → Type 0
HeldBy i a =
    (a ≡ unspecified)
    ⊎ (((i.address ≡ a) × (0 < i.priority))
        ⊎ ((x : Ipv4Addr × Neighbor) × In x i.neighbors
            × (at_least_two_way x ≡ true)
            × (x.1.address ≡ a)
            × (0 < x.1.priority)))

module _ (i : OspfInterface) where
  holder_of :
      (a : Ipv4Addr) (c : Candidate) (self : Ipv4Addr × Ipv4Addr)
      → In c (map candidate_of (filter at_least_two_way i.neighbors))
        ⊎ In c (self_candidate i.router_id i.address i.priority self ∷ [])
      → 0 < c.priority
      → c.ip_address ≡ a
      → HeldBy i a
  unfolding self_candidate
  holder_of a c self (inl m) p e =
      let (x, j, same) = map-In candidate_of c _ m in
      let (k, h) = filter-In at_least_two_way x i.neighbors j in
      inr (
        inr (
          x,
          k,
          h,
          sym (ap (λ (d : Candidate). d.ip_address) same) ∙ e,
          subst (λ (d : Candidate). 0 < d.priority) same p,
        ))
  holder_of a c self (inr (inl same)) p e = inr (
      inl (
        sym (ap (λ (d : Candidate). d.ip_address) same) ∙ e,
        subst (λ (d : Candidate). 0 < d.priority) same p,
      ))
  holder_of a c self (inr (inr m)) p e = absurd m

  role_held :
      (self : Ipv4Addr × Ipv4Addr) (a : Ipv4Addr) → IsRole (candidates i self) a → HeldBy i a
  unfolding candidates
  role_held self a (inl e) = inl e
  role_held self a (inr (c, m, h, e)) = holder_of a c self (append-In c _ _ m) (ground arith) e

  last_round :
      (more : ℕ) (self : Ipv4Addr × Ipv4Addr)
      → (last : Ipv4Addr × Ipv4Addr) × (election_loop more (candidates i) i.address self
          ≡ elect (candidates i last))
  unfolding election_loop
  last_round zero self = (self, refl)
  last_round (suc more) self =
      elim (Bool-cases (role_changed i.address self (elect (candidates i self)))) [
        | inl again ↦
            let (last, e) = last_round more (elect (candidates i self)) in
            (last, rw (again, election_loop) e)
        | inr done ↦ (self, rw (done, election_loop))
      ]

  -- Each of the two roles that are elected is held by us or by a neighbor in 2-Way or better, with a
  -- positive priority, or by none; and not both by one address.
  pub elected_held :
      HeldBy i (elected i).0
      × HeldBy i (elected i).1
      × (((elected i).1 ≡ unspecified) ⊎ ((elected i).1 ≢ (elected i).0))
  unfolding elected
  elected_held =
      let (last, e) = last_round 1 (i.dr, i.bdr) in
      let (r, s, d) = elect_roles (candidates i last) in
      rw e (role_held last _ r, role_held last _ s, d)
