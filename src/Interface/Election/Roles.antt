-- ===== src/Interface/Election/Roles.antt =====
-- Who may be elected: the roles go to eligible candidates, to two different ones, and the DR
-- among those that declare themselves DR is the first by priority and router id.
use Prim.Native.Nat.{Ordering}
use ospfd.Common.{
  ◌≡◌, ◌≢◌, refl, sym, arith, ◌⊎◌, inl, inr, Bool, true, not, ◌&&◌, ◌==◌, Bool-cases, Option, none,
  some, List, Ipv4Addr, unspecified, if◌then◌else◌,
}
use ospfd.Interface.Election.{
  Candidate, filter, claims_dr, eligible, by_priority, by_bdr_claim, address_of, or_else,
  or_unspecified, is_address, elect_bdr, elect_declarer, elect_other, elect,
}
use ospfd.Interface.Election.Maximum.{
  In, In-filter, filter-In, IsOrder, Greatest, nothing, greatest, max_by-Greatest,
  by_priority-IsOrder, by_bdr_claim-IsOrder,
}

-- The address of a best candidate that passes a test, or none if no candidate passes.
data Elected (cmp : Candidate → Candidate → Ordering) (test : Candidate → Bool)
    (cs : List Candidate) : Option Ipv4Addr → Type 0 where
  vacant : ((c : Candidate) → In c cs → test c ≡ true → ⊥) → Elected cmp test cs none
  elected :
      (w : Candidate) (a : Ipv4Addr)
      → In w cs
      → test w ≡ true
      → w.ip_address ≡ a
      → ((c : Candidate) → In c cs → test c ≡ true → cmp c w ≢ Ordering.gt)
      → Elected cmp test cs (some a)

of_Greatest :
    (cmp : Candidate → Candidate → Ordering) (test : Candidate → Bool) (cs : List Candidate)
    (r : Option Candidate) (o : IsOrder cmp)
    → Greatest cmp o (filter test cs) r
    → Elected cmp test cs (address_of r)
of_Greatest cmp test cs _ o (nothing e) = vacant (λ c m h. e c (In-filter test c cs m h))
of_Greatest cmp test cs _ o (greatest w i b) =
    let (m, h) = filter-In test w cs i in
    elected w w.ip_address m h refl (λ c n k. b c (In-filter test c cs n k))

-- A filtered list filtered again is the list filtered by both tests.
both :
    (cmp : Candidate → Candidate → Ordering) (p q : Candidate → Bool) (cs : List Candidate)
    (r : Option Ipv4Addr)
    → Elected cmp p (filter q cs) r
    → Elected cmp (λ c. q c && p c) cs r
both cmp p q cs _ (vacant e) =
    vacant (λ c m h. e c (In-filter q c cs m (ground arith)) (ground arith))
both cmp p q cs _ (elected w a i h e b) =
    let (m, k) = filter-In q w cs i in
    elected w a m (ground arith) e (λ c n l. b c (In-filter q c cs n (ground arith)) (ground arith))

left_true : (p q : Bool) → (p && q) ≡ true → p ≡ true
left_true p q h = ground arith

right_true : (p q : Bool) → (p && q) ≡ true → q ≡ true
right_true p q h = ground arith

module _ (cs : List Candidate) where
  bdr_elected : Elected by_bdr_claim (λ c. eligible c && not (claims_dr c)) cs (elect_bdr cs)
  unfolding elect_bdr
  bdr_elected =
      both by_bdr_claim (λ c. not (claims_dr c)) eligible cs _
        (of_Greatest _ _ _ _ _ (max_by-Greatest by_bdr_claim by_bdr_claim-IsOrder _))

  declarer_elected : Elected by_priority (λ c. eligible c && claims_dr c) cs (elect_declarer cs)
  unfolding elect_declarer
  declarer_elected =
      both by_priority claims_dr eligible cs _
        (of_Greatest _ _ _ _ _ (max_by-Greatest by_priority by_priority-IsOrder _))

  other_elected :
      (a : Ipv4Addr)
      → Elected by_priority (λ c. eligible c && not (c.ip_address == a)) cs (elect_other cs a)
  unfolding elect_other
  other_elected a = of_Greatest _ _ _ _ _ (max_by-Greatest by_priority by_priority-IsOrder _)

  -- The address of an eligible candidate, or 0.0.0.0.
  abbrev pub IsRole : Ipv4Addr → Type 0
  IsRole a =
      (a ≡ unspecified) ⊎ ((c : Candidate) × In c cs × (eligible c ≡ true) × (c.ip_address ≡ a))

  IsRole-of :
      (cmp : Candidate → Candidate → Ordering) (test : Candidate → Bool) (r : Option Ipv4Addr)
      → ((c : Candidate) → test c ≡ true → eligible c ≡ true)
      → Elected cmp test cs r
      → IsRole (or_unspecified r)
  IsRole-of cmp test _ able (vacant e) = inl refl
  IsRole-of cmp test _ able (elected w a i h e b) = inr (w, i, able w h, e)

  -- What the second choice of BDR gives differs from the DR.
  other_differs :
      (dr : Ipv4Addr) (r : Option Ipv4Addr)
      → Elected by_priority (λ c. eligible c && not (c.ip_address == dr)) cs r
      → (or_unspecified r ≡ unspecified) ⊎ (or_unspecified r ≢ dr)
  other_differs dr _ (vacant e) = inl refl
  other_differs dr _ (elected w a i h e b) = inr (λ p. ground arith)

  dr-IsRole :
      (d b : Option Ipv4Addr)
      → IsRole (or_unspecified d)
      → IsRole (or_unspecified b)
      → IsRole (or_unspecified (or_else d b))
  dr-IsRole none b h k = k
  dr-IsRole (some a) b h k = h

  -- The BDR, from the DR, the best candidate for BDR and the second choice.
  abbrev bdr_of : Ipv4Addr → Option Ipv4Addr → Option Ipv4Addr → Ipv4Addr
  bdr_of dr b o = if is_address dr b then or_unspecified o else or_unspecified b

  bdr-IsRole :
      (dr : Ipv4Addr) (b o : Option Ipv4Addr)
      → IsRole (or_unspecified b)
      → IsRole (or_unspecified o)
      → ((or_unspecified o ≡ unspecified) ⊎ (or_unspecified o ≢ dr))
      → IsRole (bdr_of dr b o) × ((bdr_of dr b o ≡ unspecified) ⊎ (bdr_of dr b o ≢ dr))
  bdr-IsRole dr none o h k d = (h, inl refl)
  bdr-IsRole dr (some a) o h k d = elim (Bool-cases (dr == a)) [
    | inl same ↦ rw same (k, d)
    | inr other ↦ rw other (h, inr (λ e. ground arith))
  ]

  -- The roles are held by eligible candidates, or by none (0.0.0.0), and never both by one.
  pub elect_roles :
      IsRole (elect cs).0
      × IsRole (elect cs).1
      × (((elect cs).1 ≡ unspecified) ⊎ ((elect cs).1 ≢ (elect cs).0))
  unfolding elect
  elect_roles =
      let bdr = IsRole-of by_bdr_claim _ (elect_bdr cs) (λ c h. left_true _ _ h) bdr_elected in
      let declarer =
        IsRole-of by_priority _ (elect_declarer cs) (λ c h. left_true _ _ h) declarer_elected in
      let dr = or_unspecified (or_else (elect_declarer cs) (elect_bdr cs)) in
      let other =
        IsRole-of by_priority _ (elect_other cs dr) (λ c h. left_true _ _ h) (other_elected dr) in
      let second =
        bdr-IsRole dr (elect_bdr cs) (elect_other cs dr) bdr other
          (other_differs dr _ (other_elected dr)) in
      (dr-IsRole (elect_declarer cs) (elect_bdr cs) declarer bdr, second.0, second.1)

  declared_by :
      (c : Candidate)
      → In c cs
      → eligible c ≡ true
      → claims_dr c ≡ true
      → (d b : Option Ipv4Addr) → Elected by_priority (λ x. eligible x && claims_dr x) cs d
      → (w : Candidate) × In w cs
        × (eligible w ≡ true)
        × (claims_dr w ≡ true)
        × (or_unspecified (or_else d b) ≡ w.ip_address)
        × (by_priority c w ≢ Ordering.gt)
  declared_by c m h k _ b (vacant e) = absurd (e c m (ground arith))
  declared_by c m h k _ b (elected w a i t e best) =
      (w, i, left_true _ _ t, right_true _ _ t, sym e, best c m (ground arith))

  -- Where an eligible candidate declares itself DR, the DR is an eligible candidate that does,
  -- and no other such candidate is before it in priority and router id.
  pub elect_declared :
      (c : Candidate)
      → In c cs
      → eligible c ≡ true
      → claims_dr c ≡ true
      → (w : Candidate) × In w cs
        × (eligible w ≡ true)
        × (claims_dr w ≡ true)
        × ((elect cs).0 ≡ w.ip_address)
        × (by_priority c w ≢ Ordering.gt)
  unfolding elect
  elect_declared c m h k = declared_by c m h k (elect_declarer cs) (elect_bdr cs) declarer_elected
