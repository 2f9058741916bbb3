-- ===== src/Rib/V2/Laws.antt =====
-- The OSPFv2 cache holds a cheapest route for each prefix (src/rib.rs).
use ospfd.Common.{
  ℕ, ◌≤◌, ◌≡◌, refl, arith, inl, inr, In, All, Bool-cases, true, Option, none, some, List, [], ◌∷◌,
  map, ltb,
}
use mathlib.Core.Logic.{◌↔◌}
use ospfd.Spf.Routes.{SpfRoute}
use ospfd.Rib.Cache.{RouteKey, lookup, apply_routes}
use ospfd.Rib.Cache.Laws.{
  values_at, fold, onto, lookup_nil, lookup-offer_all, Distinct, nil, offer_all-Distinct,
  apply_routes-unchanged,
}
use ospfd.Rib.V2.{RouteValue, OspfRib, value_eq, keep_cheaper, entry_of, update}

-- The values of which a route is the cheapest: none for no route.
abbrev pub Cheapest : Option RouteValue → List RouteValue → Type 0
Cheapest none vs = vs ≡ []
Cheapest (some r) vs = In r vs × All (λ v. r.cost ≤ v.cost) vs

lower-All :
    (a b : ℕ) (vs : List RouteValue) → a ≤ b → All (λ v. b ≤ v.cost) vs → All (λ v. a ≤ v.cost) vs
lower-All a b [] h all = tt
lower-All a b (v ∷ vs) h (here, all) = (omega arith, lower-All a b vs h all)

keep_cheaper-Cheapest :
    (w v r : RouteValue) (vs : List RouteValue)
    → Cheapest (some r) (keep_cheaper w v ∷ vs)
    → Cheapest (some r) (w ∷ v ∷ vs)
keep_cheaper-Cheapest w v r vs h = elim (Bool-cases (ltb v.cost w.cost)) [
  | inl less ↦
      let ih : Cheapest (some r) (v ∷ vs) = rw less at h in
      (inr ih.0, (ground (arith, ih.1.0), ih.1))
  | inr more ↦
      let ih : Cheapest (some r) (w ∷ vs) = rw more at h in
      (
        elim ih.0 [ inl e ↦ inl e | inr i ↦ inr (inr i) ],
        (ih.1.0, (ground (arith, ih.1.0), ih.1.1)),
      )
]

fold-Cheapest :
    (w : RouteValue) (vs : List RouteValue) → Cheapest (some (fold keep_cheaper w vs)) (w ∷ vs)
unfolding fold
fold-Cheapest w [] = (inl refl, (omega arith, tt))
fold-Cheapest w (v ∷ vs) =
    keep_cheaper-Cheapest w v (fold keep_cheaper (keep_cheaper w v) vs) vs
      (fold-Cheapest (keep_cheaper w v) vs)

onto-Cheapest : (vs : List RouteValue) → Cheapest (onto keep_cheaper none vs) vs
onto-Cheapest [] = refl
onto-Cheapest (v ∷ vs) = fold-Cheapest v vs

-- The updated cache holds for each prefix a cheapest one of the routes offered for it, and nothing
-- when there is none, whatever it held before.
pub update-Cheapest :
    (rib : OspfRib) (new_routes : List SpfRoute) (j : RouteKey)
    → Cheapest
        (lookup j (update rib new_routes).0.installed)
        (values_at j (map entry_of new_routes))
unfolding update apply_routes
update-Cheapest rib new_routes j =
    rw (lookup-offer_all keep_cheaper j (map entry_of new_routes) [], lookup_nil {V = RouteValue} j)
      (onto-Cheapest (values_at j (map entry_of new_routes)))

value_eq→eq : (a b : RouteValue) → value_eq a b ≡ true → a ≡ b
value_eq→eq a b h = ground arith

value_eq_refl : (a : RouteValue) → value_eq a a ≡ true
value_eq_refl a = ground arith

-- An update reports nothing added and nothing deleted exactly when every prefix has the value that
-- it had in the cache before, whose prefixes are distinct.
pub update-unchanged :
    (rib : OspfRib) (new_routes : List SpfRoute)
    → Distinct rib.installed
    → (((update rib new_routes).1 ≡ 0) × ((update rib new_routes).2 ≡ 0))
      ↔ ((k : RouteKey) → lookup k (update rib new_routes).0.installed ≡ lookup k rib.installed)
unfolding update
update-unchanged rib new_routes distinct =
    apply_routes-unchanged keep_cheaper value_eq value_eq→eq value_eq_refl rib.installed
      (map entry_of new_routes) distinct

-- The prefixes of an updated cache are distinct.
pub update-Distinct :
    (rib : OspfRib) (new_routes : List SpfRoute) → Distinct (update rib new_routes).0.installed
unfolding update apply_routes
update-Distinct rib new_routes = offer_all-Distinct keep_cheaper (map entry_of new_routes) [] nil
