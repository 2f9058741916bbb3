-- ===== src/Rib/Cache/Laws.antt =====
-- What a cache holds after the routes were offered, and what the two counts say (src/rib.rs,
-- src/rib_v3.rs).
use ospfd.Common.{
  ◌≡◌, ◌≢◌, refl, sym, arith, inl, inr, In, Bool-cases, Bool, true, false, Option, none, some, List,
  [], ◌∷◌, if◌then◌else◌,
}
use mathlib.Core.Logic.{◌↔◌}
use ospfd.Rib.Cache.{
  RouteKey, key_eq, lookup, offer, offer_all, differs, count_deleted, count_added, apply_routes,
}

pub key_eq→eq : (a b : RouteKey) → key_eq a b ≡ true → a ≡ b
key_eq→eq a b h = ground arith

pub key_eq_refl : (a : RouteKey) → key_eq a a ≡ true
key_eq_refl a = ground arith

pub key_eq_comm : (a b : RouteKey) → key_eq a b ≡ key_eq b a
key_eq_comm a b = ground arith

module _ {V : Type 0} where
  abbrev pub merged : (V → V → V) → V → Option V → V
  merged merge v none = v
  merged merge v (some w) = merge w v

  pub lookup-offer :
      (merge : V → V → V) (j k : RouteKey) (v : V) (m : List (RouteKey × V))
      → lookup j (offer merge k v m)
        ≡ (if key_eq k j then some (merged merge v (lookup j m)) else lookup j m)
  unfolding lookup offer
  lookup-offer merge j k v [] = refl
  lookup-offer merge j k v ((i, w) ∷ m) = ground (arith, lookup-offer merge j k v m)

  -- The values offered for one prefix, in order, and what they come to.
  unfoldable pub values_at : RouteKey → List (RouteKey × V) → List V
  values_at j [] = []
  values_at j ((k, v) ∷ routes) =
      let rest = values_at j routes in if key_eq k j then v ∷ rest else rest

  unfoldable pub fold : (V → V → V) → V → List V → V
  fold merge w [] = w
  fold merge w (v ∷ vs) = fold merge (merge w v) vs

  abbrev pub onto : (V → V → V) → Option V → List V → Option V
  onto merge (some w) vs = some (fold merge w vs)
  onto merge none [] = none
  onto merge none (v ∷ vs) = some (fold merge v vs)

  onto_step :
      (merge : V → V → V) (o : Option V) (v : V) (vs : List V)
      → onto merge (some (merged merge v o)) vs ≡ onto merge o (v ∷ vs)
  unfolding fold
  onto_step merge none v vs = refl
  onto_step merge (some w) v vs = refl

  pub lookup-offer_all :
      (merge : V → V → V) (j : RouteKey) (routes m : List (RouteKey × V))
      → lookup j (offer_all merge routes m) ≡ onto merge (lookup j m) (values_at j routes)
  unfolding offer_all values_at fold
  lookup-offer_all merge j [] m = elim (lookup j m) as (λ o. o ≡ onto merge o []) [
    | none ↦ refl
    | some w ↦ refl
  ]
  lookup-offer_all merge j ((k, v) ∷ routes) m =
      rw (lookup-offer_all merge j routes (offer merge k v m), lookup-offer merge j k v m)
        elim (key_eq k j)
          as (λ b.
            onto merge (if b then some (merged merge v (lookup j m)) else lookup j m)
              (values_at j routes)
            ≡ onto merge (lookup j m) (if b then v ∷ values_at j routes else values_at j routes)) [
              | true ↦ onto_step merge (lookup j m) v (values_at j routes)
              | false ↦ refl
            ]

  -- Each prefix occurs once.
  pub data Distinct : List (RouteKey × V) → Type 0 where
    nil : Distinct []
    cons :
        {k : RouteKey} {v : V} {m : List (RouteKey × V)}
        → lookup k m ≡ none
        → Distinct m
        → Distinct ((k, v) ∷ m)

  pub lookup_nil : (k : RouteKey) → lookup {V = V} k [] ≡ none
  unfolding lookup
  lookup_nil k = refl

  offer-Distinct :
      (merge : V → V → V) (k : RouteKey) (v : V) (m : List (RouteKey × V))
      → Distinct m
      → Distinct (offer merge k v m)
  unfolding offer
  offer-Distinct merge k v [] d = cons (lookup_nil k) nil
  offer-Distinct merge k v ((i, w) ∷ m) (cons fresh d) = elim (Bool-cases (key_eq i k)) [
    | inl same ↦ rw same (cons fresh d)
    | inr other ↦
        rw other (cons (ground (arith, lookup-offer merge i k v m)) (offer-Distinct merge k v m d))
  ]

  pub offer_all-Distinct :
      (merge : V → V → V) (routes m : List (RouteKey × V))
      → Distinct m
      → Distinct (offer_all merge routes m)
  unfolding offer_all
  offer_all-Distinct merge [] m d = d
  offer_all-Distinct merge ((k, v) ∷ routes) m d =
      offer_all-Distinct merge routes (offer merge k v m) (offer-Distinct merge k v m d)

  absent-In : (k : RouteKey) (v : V) (m : List (RouteKey × V)) → lookup k m ≡ none → In (k, v) m → ⊥
  unfolding lookup
  absent-In k v [] h i = i
  absent-In k v ((j, w) ∷ m) h (inl e) = ground arith
  absent-In k v ((j, w) ∷ m) h (inr i) = absent-In k v m (ground arith) i

  In-lookup :
      (k : RouteKey) (v : V) (m : List (RouteKey × V))
      → Distinct m
      → In (k, v) m
      → lookup k m ≡ some v
  unfolding lookup
  In-lookup k v [] d i = absurd i
  In-lookup k v ((j, w) ∷ m) (cons fresh d) (inl e) = ground arith
  In-lookup k v ((j, w) ∷ m) (cons fresh d) (inr i) = elim (Bool-cases (key_eq j k)) [
    | inl same ↦ absurd (absent-In k v m (rw (key_eq→eq j k same) at fresh) i)
    | inr other ↦ rw other (In-lookup k v m d i)
  ]

  lookup-In : (k : RouteKey) (v : V) (m : List (RouteKey × V)) → lookup k m ≡ some v → In (k, v) m
  unfolding lookup
  lookup-In k v [] h = cc
  lookup-In k v ((j, w) ∷ m) h = elim (Bool-cases (key_eq j k)) [
    | inl same ↦ inl (ground arith)
    | inr other ↦ let h' : lookup k m ≡ some v = rw other at h in inr (lookup-In k v m h')
  ]

  count_deleted-zero :
      (m new_map : List (RouteKey × V))
      → count_deleted m new_map ≡ 0
      → (k : RouteKey) → lookup k new_map ≡ none
      → lookup k m ≡ none
  unfolding count_deleted lookup
  count_deleted-zero [] new_map h k e = refl
  count_deleted-zero ((j, w) ∷ m) new_map h k e = elim (Bool-cases (key_eq j k)) [
    | inl same ↦
        let gone : lookup j new_map ≡ none = rw (key_eq→eq j k same) e in
        absurd (ground (arith, gone))
    | inr other ↦ rw other (count_deleted-zero m new_map (ground arith) k e)
  ]

  zero-count_deleted :
      (m new_map : List (RouteKey × V))
      → ((k : RouteKey) (v : V) → In (k, v) m → lookup k new_map ≢ none)
      → count_deleted m new_map ≡ 0
  unfolding count_deleted
  zero-count_deleted [] new_map h = refl
  zero-count_deleted ((j, w) ∷ m) new_map h =
      let ih = zero-count_deleted m new_map (λ k v i. h k v (inr i)) in
      let here = h j w (inl refl) in ground arith

  module _ (same : V → V → Bool) (same→eq : (v w : V) → same v w ≡ true → v ≡ w) where
    not_differs : (v : V) (o : Option V) → differs same v o ≡ false → o ≡ some v
    not_differs v none h = cc
    not_differs v (some w) h = ground (arith, same→eq w v)

    count_added-zero :
        (installed m : List (RouteKey × V))
        → count_added same installed m ≡ 0
        → (k : RouteKey) (v : V) → In (k, v) m
        → lookup k installed ≡ some v
    unfolding count_added
    count_added-zero installed [] h k v i = absurd i
    count_added-zero installed ((j, w) ∷ m) h k v (inl e) =
        elim (Bool-cases (differs same w (lookup j installed))) [
          | inl d ↦ absurd (ground arith)
          | inr d ↦ ground (arith, not_differs w (lookup j installed) d)
        ]
    count_added-zero installed ((j, w) ∷ m) h k v (inr i) =
        count_added-zero installed m (ground arith) k v i

  module _ (same : V → V → Bool) (same_refl : (v : V) → same v v ≡ true) where
    zero-count_added :
        (installed m : List (RouteKey × V))
        → ((k : RouteKey) (v : V) → In (k, v) m → lookup k installed ≡ some v)
        → count_added same installed m ≡ 0
    unfolding count_added
    zero-count_added installed [] h = refl
    zero-count_added installed ((j, w) ∷ m) h =
        let ih = zero-count_added installed m (λ k v i. h k v (inr i)) in
        let here = h j w (inl refl) in ground (arith, same_refl w)

  -- Both counts are zero exactly when no prefix changed its value.
  module _ (merge : V → V → V) (same : V → V → Bool) (same→eq : (v w : V) → same v w ≡ true → v ≡ w)
      (same_refl : (v : V) → same v v ≡ true) (installed routes : List (RouteKey × V))
      (distinct : Distinct installed) where
    zero→same :
        count_added same installed (offer_all merge routes []) ≡ 0
        → count_deleted installed (offer_all merge routes []) ≡ 0
        → (k : RouteKey) → lookup k (offer_all merge routes []) ≡ lookup k installed
    zero→same added deleted k = go (lookup k (offer_all merge routes [])) refl
      where
        go : (o : Option V) → lookup k (offer_all merge routes []) ≡ o → o ≡ lookup k installed
        go none e = sym (count_deleted-zero installed (offer_all merge routes []) deleted k e)
        go (some v) e = sym (
            count_added-zero same same→eq installed (offer_all merge routes []) added k v
              (lookup-In k v (offer_all merge routes []) e))

    same→added :
        ((k : RouteKey) → lookup k (offer_all merge routes []) ≡ lookup k installed)
        → count_added same installed (offer_all merge routes []) ≡ 0
    same→added h =
        zero-count_added same same_refl installed (offer_all merge routes [])
          (λ k v i. rw (sym (h k)) (In-lookup k v _ (offer_all-Distinct merge routes [] nil) i))

    same→deleted :
        ((k : RouteKey) → lookup k (offer_all merge routes []) ≡ lookup k installed)
        → count_deleted installed (offer_all merge routes []) ≡ 0
    same→deleted h =
        zero-count_deleted installed (offer_all merge routes [])
          (λ k v i e. let found = In-lookup k v installed distinct i in ground (arith, h k))

    pub apply_routes-unchanged :
        (((apply_routes merge same installed routes).1 ≡ 0)
          × ((apply_routes merge same installed routes).2 ≡ 0))
        ↔ ((k : RouteKey)
            → lookup k (apply_routes merge same installed routes).0 ≡ lookup k installed)
    unfolding apply_routes
    apply_routes-unchanged = ((λ h. zero→same h.0 h.1), (λ h. (same→added h, same→deleted h)))
