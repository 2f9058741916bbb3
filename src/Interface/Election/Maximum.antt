-- ===== src/Interface/Election/Maximum.antt =====
-- What `max_by` and `filter` give: a greatest element of those that pass, whatever their order.
use Prim.Native.Nat.{compare, Ordering}
pub use ospfd.Common.{In}
use ospfd.Common.{
  ℕ, ◌≡◌, ◌≢◌, refl, ap, arith, ◌⊎◌, inl, inr, Bool, true, false, Bool-cases, Option, none, some,
  List, [], ◌∷◌, ◌∙◌, if◌then◌else◌,
}
use ospfd.Packet.Lsa.Header.Recency.{then_with, flip}
use ospfd.Interface.Election.{
  filter, max_from, max_by, compare_bool, by_priority, by_bdr_claim, claims_bdr,
}

module _ {A : Type 0} (p : A → Bool) where
  pub In-filter : (x : A) (xs : List A) → In x xs → p x ≡ true → In x (filter p xs)
  In-filter x (y ∷ ys) (inl e) h = rw (← e, h) (inl refl)
  In-filter x (y ∷ ys) (inr m) h = elim (Bool-cases (p y)) [
    | inl keep ↦ rw keep (inr (In-filter x ys m h))
    | inr skip ↦ rw skip (In-filter x ys m h)
  ]
  In-filter x [] m h = absurd m

  filter_cons :
      (x y : A) (ys : List A) (b : Bool)
      → p y ≡ b
      → In x (if b then y ∷ filter p ys else filter p ys)
      → (In x (filter p ys) → In x ys × (p x ≡ true))
      → In x (y ∷ ys) × (p x ≡ true)
  filter_cons x y ys true keep (inl e) rec = (inl e, rw e keep)
  filter_cons x y ys true keep (inr m) rec = let (i, h) = rec m in (inr i, h)
  filter_cons x y ys false keep m rec = let (i, h) = rec m in (inr i, h)

  pub filter-In : (x : A) (xs : List A) → In x (filter p xs) → In x xs × (p x ≡ true)
  filter-In x [] m = absurd m
  filter-In x (y ∷ ys) m = filter_cons x y ys (p y) refl m (filter-In x ys)

-- A comparison that orders: `gt` one way is `lt` the other way, and "not greater" is transitive.
pub record IsOrder {A : Type 0} (cmp : A → A → Ordering) : Type 0 where
  pub flips : (a b : A) → cmp b a ≡ flip (cmp a b)
  pub trans : (a b c : A) → cmp a b ≢ Ordering.gt → cmp b c ≢ Ordering.gt → cmp a c ≢ Ordering.gt

abbrev pick : {A : Type 0} → (A → A → Ordering) → A → A → A
pick cmp best x = elim (cmp best x) [ Ordering.gt ↦ best | _ ↦ x ]

module _ {A : Type 0} (cmp : A → A → Ordering) (o : IsOrder cmp) where
  self_le : (a : A) → cmp a a ≢ Ordering.gt
  self_le a h = ground (arith, o.flips a a)

  pick_le : (a b : A) → (cmp a (pick cmp a b) ≢ Ordering.gt) × (cmp b (pick cmp a b) ≢ Ordering.gt)
  pick_le a b = ground (arith, o.flips a b, self_le a, self_le b)

  pick_cases : (a b : A) → (pick cmp a b ≡ a) ⊎ (pick cmp a b ≡ b)
  pick_cases a b = of (cmp a b)
    where
      of :
          (r : Ordering)
          → ((elim r [ Ordering.gt ↦ a | _ ↦ b ]) ≡ a) ⊎ ((elim r [ Ordering.gt ↦ a | _ ↦ b ]) ≡ b)
      of Ordering.gt = inl refl
      of Ordering.lt = inr refl
      of Ordering.eq = inr refl

  widen : (m q a b : A) (xs : List A) → (q ≡ a) ⊎ (q ≡ b) → In m (q ∷ xs) → In m (a ∷ b ∷ xs)
  widen m q a b xs (inl e) (inl h) = inl (h ∙ e)
  widen m q a b xs (inr e) (inl h) = inr (inl (h ∙ e))
  widen m q a b xs e (inr h) = inr (inr h)

  max_from-In : (b : A) (xs : List A) → In (max_from cmp b xs) (b ∷ xs)
  max_from-In b [] = inl refl
  max_from-In b (x ∷ xs) =
      widen (max_from cmp (pick cmp b x) xs) (pick cmp b x) b x xs (pick_cases b x)
        (max_from-In (pick cmp b x) xs)

  max_from-le :
      (b : A) (xs : List A) (x : A) → In x (b ∷ xs) → cmp x (max_from cmp b xs) ≢ Ordering.gt
  max_from-le b [] x (inl e) = rw e (self_le b)
  max_from-le b [] x (inr m) = absurd m
  max_from-le b (y ∷ ys) x (inl e) =
      rw e (o.trans b (pick cmp b y) _ (pick_le b y).0 (max_from-le (pick cmp b y) ys _ (inl refl)))
  max_from-le b (y ∷ ys) x (inr (inl e)) =
      rw e (o.trans y (pick cmp b y) _ (pick_le b y).1 (max_from-le (pick cmp b y) ys _ (inl refl)))
  max_from-le b (y ∷ ys) x (inr (inr m)) = max_from-le (pick cmp b y) ys x (inr m)

  -- `max_by` finds nothing in an empty list only, and otherwise a greatest element.
  pub data Greatest (xs : List A) : Option A → Type 0 where
    nothing : ((x : A) → In x xs → ⊥) → Greatest xs none
    greatest :
        (m : A) → In m xs → ((x : A) → In x xs → cmp x m ≢ Ordering.gt) → Greatest xs (some m)

  pub max_by-Greatest : (xs : List A) → Greatest xs (max_by cmp xs)
  max_by-Greatest [] = nothing (λ x m. m)
  max_by-Greatest (x ∷ xs) = greatest (max_from cmp x xs) (max_from-In x xs) (max_from-le x xs)

  -- Two lists with the same elements have the same greatest element, if no two of them are equal
  -- in the order.
  pub Greatest-unique :
      (xs ys : List A) (r s : Option A)
      → ((x : A) → In x xs → In x ys)
      → ((x : A) → In x ys → In x xs)
      → ((a b : A) → In a xs → In b xs → cmp a b ≡ Ordering.eq → a ≡ b)
      → Greatest xs r
      → Greatest ys s
      → r ≡ s
  Greatest-unique xs ys r s to from apart (nothing e) (nothing f) = refl
  Greatest-unique xs ys r s to from apart (nothing e) (greatest m i _) = absurd (e m (from m i))
  Greatest-unique xs ys r s to from apart (greatest m i _) (nothing f) = absurd (f m (to m i))
  Greatest-unique xs ys r s to from apart (greatest m i h) (greatest n j k) = ap some (
      apart m n i (from n j)
        (neither (cmp m n) (cmp n m) (o.flips m n) (k m (to m i)) (h n (from n j))))
    where
      neither : (x y : Ordering) → y ≡ flip x → x ≢ Ordering.gt → y ≢ Ordering.gt → x ≡ Ordering.eq
      neither x y e p q = ground arith

-- The two orders of the election.
by_numbers_trans :
    (a b c : ℕ) (x y z : Ordering)
    → (x ≢ Ordering.gt → y ≢ Ordering.gt → z ≢ Ordering.gt)
    → then_with (compare a b) x ≢ Ordering.gt
    → then_with (compare b c) y ≢ Ordering.gt
    → then_with (compare a c) z ≢ Ordering.gt
by_numbers_trans a b c x y z next p q = ground arith

by_claims_trans :
    (a b c : Bool) (x y z : Ordering)
    → (x ≢ Ordering.gt → y ≢ Ordering.gt → z ≢ Ordering.gt)
    → then_with (compare_bool a b) x ≢ Ordering.gt
    → then_with (compare_bool b c) y ≢ Ordering.gt
    → then_with (compare_bool a c) z ≢ Ordering.gt
by_claims_trans a b c x y z next p q = ground arith

compare_trans :
    (a b c : ℕ) → compare a b ≢ Ordering.gt → compare b c ≢ Ordering.gt → compare a c ≢ Ordering.gt
compare_trans a b c p q = ground arith

pub by_priority-IsOrder : IsOrder by_priority
by_priority-IsOrder = record {
  flips = λ a b. ground arith;
  trans = λ a b c.
      by_numbers_trans a.priority b.priority c.priority _ _ _
        (compare_trans a.router_id b.router_id c.router_id);
}

pub by_bdr_claim-IsOrder : IsOrder by_bdr_claim
by_bdr_claim-IsOrder = record {
  flips = λ a b. claim_flips (claims_bdr a) (claims_bdr b) _ _ (by_priority-IsOrder.flips a b);
  trans = λ a b c p q.
      by_claims_trans (claims_bdr a) (claims_bdr b) (claims_bdr c) (by_priority a b)
        (by_priority b c) (by_priority a c) (by_priority-IsOrder.trans a b c) p q;
}
  where
    claim_flips :
        (a b : Bool) (x y : Ordering)
        → y ≡ flip x
        → then_with (compare_bool b a) y ≡ flip (then_with (compare_bool a b) x)
    claim_flips a b x y e = ground arith
