-- ===== src/Rib/V3/Laws.antt =====
-- The OSPFv3 cache holds for each prefix the next hops of all its cheapest routes (src/rib_v3.rs).
use ospfd.Common.{
  ℕ, ◌≤◌, ◌≡◌, refl, sym, ◌∙◌, arith, ◌⊎◌, inl, inr, In, append-In, In-append, All, Bool-cases,
  true, Option, none, some, List, [], ◌∷◌, ◌++◌, map, ltb, ◌==◌, if◌then◌else◌,
}
use mathlib.Core.Logic.{◌↔◌}
use ospfd.Rib.Cache.{RouteKey, lookup, apply_routes}
use ospfd.Rib.Cache.Laws.{
  values_at, fold, onto, lookup_nil, lookup-offer_all, Distinct, apply_routes-unchanged,
}
use ospfd.Rib.V3.{
  Ospfv3Route, RouteValue, OspfRibV3, hop_eq, hops_contain, add_hops, hops_eq, value_eq,
  merge_value, entry_of, update_v3,
}

contain-In : (hs : List (ℕ × ℕ)) (h : ℕ × ℕ) → hops_contain hs h ≡ true → In h hs
unfolding hops_contain
contain-In [] h e = cc
contain-In ((a, i) ∷ gs) (b, j) e = elim (Bool-cases (hop_eq (a, i) (b, j))) [
  | inl same ↦ inl (ground arith)
  | inr other ↦ inr (contain-In gs (b, j) (ground arith))
]

abbrev push_hop : List (ℕ × ℕ) → ℕ × ℕ → List (ℕ × ℕ)
push_hop hs g = if hops_contain hs g then hs else hs ++ (g ∷ [])

push_hop-In : (hs : List (ℕ × ℕ)) (g h : ℕ × ℕ) → In h (push_hop hs g) → In h hs ⊎ (h ≡ g)
push_hop-In hs g h i = elim (Bool-cases (hops_contain hs g)) [
  | inl old ↦ let j : In h hs = rw old at i in inl j
  | inr new ↦
      let j : In h (hs ++ (g ∷ [])) = rw new at i in
      elim (append-In h hs (g ∷ []) j) [
        | inl k ↦ inl k
        | inr k ↦ elim k [ inl e ↦ inr e | inr never ↦ absurd never ]
      ]
]

In-push_hop : (hs : List (ℕ × ℕ)) (g h : ℕ × ℕ) → In h hs ⊎ (h ≡ g) → In h (push_hop hs g)
In-push_hop hs g h (inl i) = elim (Bool-cases (hops_contain hs g)) [
  | inl old ↦ rw old i
  | inr new ↦ rw new (In-append h hs (g ∷ []) (inl i))
]
In-push_hop hs g h (inr e) = elim (Bool-cases (hops_contain hs g)) [
  | inl old ↦ rw (old, e) (contain-In hs g old)
  | inr new ↦ rw new (In-append h hs (g ∷ []) (inr (inl e)))
]

-- The next hops after a push are those of both lists.
add_hops-In : (hs gs : List (ℕ × ℕ)) (h : ℕ × ℕ) → In h (add_hops hs gs) → In h hs ⊎ In h gs
unfolding add_hops
add_hops-In hs [] h i = inl i
add_hops-In hs (g ∷ gs) h i = elim (add_hops-In (push_hop hs g) gs h i) [
  | inl j ↦ elim (push_hop-In hs g h j) [ inl k ↦ inl k | inr e ↦ inr (inl e) ]
  | inr j ↦ inr (inr j)
]

In-add_hops : (hs gs : List (ℕ × ℕ)) (h : ℕ × ℕ) → In h hs ⊎ In h gs → In h (add_hops hs gs)
unfolding add_hops
In-add_hops hs [] h (inl i) = i
In-add_hops hs [] h (inr i) = absurd i
In-add_hops hs (g ∷ gs) h (inl i) =
    In-add_hops (push_hop hs g) gs h (inl (In-push_hop hs g h (inl i)))
In-add_hops hs (g ∷ gs) h (inr (inl e)) =
    In-add_hops (push_hop hs g) gs h (inl (In-push_hop hs g h (inr e)))
In-add_hops hs (g ∷ gs) h (inr (inr i)) = In-add_hops (push_hop hs g) gs h (inr i)

hops_eq→eq : (gs hs : List (ℕ × ℕ)) → hops_eq gs hs ≡ true → gs ≡ hs
unfolding hops_eq
hops_eq→eq [] [] e = refl
hops_eq→eq [] (h ∷ hs) e = cc
hops_eq→eq (g ∷ gs) [] e = cc
hops_eq→eq ((a, i) ∷ gs) ((b, j) ∷ hs) e = ground (arith, hops_eq→eq gs hs)

hops_eq_refl : (hs : List (ℕ × ℕ)) → hops_eq hs hs ≡ true
unfolding hops_eq
hops_eq_refl [] = refl
hops_eq_refl ((a, i) ∷ hs) = ground (arith, hops_eq_refl hs)

value_eq→eq : (a b : RouteValue) → value_eq a b ≡ true → a ≡ b
value_eq→eq a b h = ground (arith, hops_eq→eq a.next_hops b.next_hops)

value_eq_refl : (a : RouteValue) → value_eq a a ≡ true
value_eq_refl a = ground (arith, hops_eq_refl a.next_hops)

-- A route of the least cost, with a next hop.
abbrev pub HopOf : ℕ → ℕ × ℕ → List RouteValue → Type 0
HopOf cost h vs = (v : RouteValue) × (In v vs × (v.cost ≡ cost) × In h v.next_hops)

-- What the routes for a prefix come to: none for no route; else the least cost of one, and with it
-- the next hops of all the routes of that cost.
abbrev pub Multipath : Option RouteValue → List RouteValue → Type 0
Multipath none vs = vs ≡ []
Multipath (some r) vs =
    All (λ v. r.cost ≤ v.cost) vs
    × ((v : RouteValue) × (In v vs × (v.cost ≡ r.cost)))
    × ((h : ℕ × ℕ) → In h r.next_hops ↔ HopOf r.cost h vs)

-- The merged value has the lesser cost, and the next hops of those of that cost.
merge_value-cost :
    (w v : RouteValue)
    → ((merge_value w v).cost ≤ w.cost)
      × ((merge_value w v).cost ≤ v.cost)
      × (((merge_value w v).cost ≡ w.cost) ⊎ ((merge_value w v).cost ≡ v.cost))
merge_value-cost w v = ground arith

merge_value-In :
    (w v : RouteValue) (h : ℕ × ℕ)
    → In h (merge_value w v).next_hops
    → ((w.cost ≡ (merge_value w v).cost) × In h w.next_hops)
      ⊎ ((v.cost ≡ (merge_value w v).cost) × In h v.next_hops)
merge_value-In w v h = elim (Bool-cases (ltb v.cost w.cost)) [
  | inl less ↦ rw less (λ i. inr (refl, i))
  | inr more ↦ elim (Bool-cases (v.cost == w.cost)) [
    | inl same ↦
        rw (more, same)
          (λ i. elim (add_hops-In w.next_hops v.next_hops h i) [
            | inl j ↦ inl (refl, j)
            | inr j ↦ inr (ground arith, j)
          ])
    | inr other ↦ rw (more, other) (λ i. inl (refl, i))
  ]
]

In-merge_value :
    (w v : RouteValue) (h : ℕ × ℕ)
    → ((w.cost ≡ (merge_value w v).cost) × In h w.next_hops)
      ⊎ ((v.cost ≡ (merge_value w v).cost) × In h v.next_hops)
    → In h (merge_value w v).next_hops
In-merge_value w v h = elim (Bool-cases (ltb v.cost w.cost)) [
  | inl less ↦ rw less (λ p. elim p [ inl q ↦ absurd (ground (arith, q.0)) | inr q ↦ q.1 ])
  | inr more ↦ elim (Bool-cases (v.cost == w.cost)) [
    | inl same ↦
        rw (more, same)
          (λ p.
            In-add_hops w.next_hops v.next_hops h (elim p [ inl q ↦ inl q.1 | inr q ↦ inr q.1 ]))
    | inr other ↦
        rw (more, other) (λ p. elim p [ inl q ↦ q.1 | inr q ↦ absurd (ground (arith, q.0)) ])
  ]
]

merge_value-HopOf :
    (w v : RouteValue) (vs : List RouteValue) (c : ℕ) (h : ℕ × ℕ)
    → HopOf c h (merge_value w v ∷ vs)
    → HopOf c h (w ∷ v ∷ vs)
merge_value-HopOf w v vs c h (x, (inr i, e, j)) = (x, (inr (inr i), e, j))
merge_value-HopOf w v vs c h (x, (inl m, e, j)) =
    let j' : In h (merge_value w v).next_hops = rw m at j in
    let e' : (merge_value w v).cost ≡ c = rw m at e in
    elim (merge_value-In w v h j') [
      | inl q ↦ (w, (inl refl, (q.0 ∙ e'), q.1))
      | inr q ↦ (v, (inr (inl refl), (q.0 ∙ e'), q.1))
    ]

HopOf-merge_value :
    (w v : RouteValue) (vs : List RouteValue) (c : ℕ) (h : ℕ × ℕ)
    → c ≤ (merge_value w v).cost
    → HopOf c h (w ∷ v ∷ vs)
    → HopOf c h (merge_value w v ∷ vs)
HopOf-merge_value w v vs c h le (x, (inr (inr i), e, j)) = (x, (inr i, e, j))
HopOf-merge_value w v vs c h le (x, (inl m, e, j)) =
    let j' : In h w.next_hops = rw m at j in
    let e' : w.cost ≡ c = rw m at e in
    let bounds = merge_value-cost w v in
    let same : w.cost ≡ (merge_value w v).cost = omega (arith, e', le, bounds.0) in
    (merge_value w v, (inl refl, (sym same ∙ e'), In-merge_value w v h (inl (same, j'))))
HopOf-merge_value w v vs c h le (x, (inr (inl m), e, j)) =
    let j' : In h v.next_hops = rw m at j in
    let e' : v.cost ≡ c = rw m at e in
    let bounds = merge_value-cost w v in
    let same : v.cost ≡ (merge_value w v).cost = omega (arith, e', le, bounds.1) in
    (merge_value w v, (inl refl, (sym same ∙ e'), In-merge_value w v h (inr (same, j'))))

merge_value-Multipath :
    (w v r : RouteValue) (vs : List RouteValue)
    → Multipath (some r) (merge_value w v ∷ vs)
    → Multipath (some r) (w ∷ v ∷ vs)
merge_value-Multipath w v r vs (costs, (x, (i, e)), hops) =
    let bounds = merge_value-cost w v in
    (
      (omega (arith, costs.0, bounds.0), (omega (arith, costs.0, bounds.1), costs.1)),
      elim i [
        | inr later ↦ (x, (inr (inr later), e))
        | inl m ↦
            let e' : (merge_value w v).cost ≡ r.cost = rw m at e in
            elim bounds.2 [
              | inl first ↦ (w, (inl refl, (sym first ∙ e')))
              | inr second ↦ (v, (inr (inl refl), (sym second ∙ e')))
            ]
      ],
      (λ h. (
        (λ j. merge_value-HopOf w v vs r.cost h ((hops h).0 j)),
        (λ p. (hops h).1 (HopOf-merge_value w v vs r.cost h costs.0 p)),
      )),
    )

HopOf_one : (w : RouteValue) (h : ℕ × ℕ) → HopOf w.cost h (w ∷ []) → In h w.next_hops
HopOf_one w h (x, (inl m, e, j)) = rw m at j
HopOf_one w h (x, (inr i, e, j)) = absurd i

fold-Multipath :
    (w : RouteValue) (vs : List RouteValue) → Multipath (some (fold merge_value w vs)) (w ∷ vs)
unfolding fold
fold-Multipath w [] = (
  (omega arith, tt),
  (w, (inl refl, refl)),
  (λ h. ((λ i. (w, (inl refl, refl, i))), HopOf_one w h)),
)
fold-Multipath w (v ∷ vs) =
    merge_value-Multipath w v (fold merge_value (merge_value w v) vs) vs
      (fold-Multipath (merge_value w v) vs)

onto-Multipath : (vs : List RouteValue) → Multipath (onto merge_value none vs) vs
onto-Multipath [] = refl
onto-Multipath (v ∷ vs) = fold-Multipath v vs

-- The updated cache holds for each prefix the least cost of the routes offered for it, with exactly
-- the next hops of the routes of that cost, and nothing when there is no route, whatever it held
-- before.
pub update_v3-Multipath :
    (rib : OspfRibV3) (new_routes : List Ospfv3Route) (j : RouteKey)
    → Multipath
        (lookup j (update_v3 rib new_routes).0.installed)
        (values_at j (map entry_of new_routes))
unfolding update_v3 apply_routes
update_v3-Multipath rib new_routes j =
    rw (lookup-offer_all merge_value j (map entry_of new_routes) [], lookup_nil {V = RouteValue} j)
      (onto-Multipath (values_at j (map entry_of new_routes)))

-- An update reports nothing added and nothing deleted exactly when every prefix has the value that
-- it had in the cache before, whose prefixes are distinct.
pub update_v3-unchanged :
    (rib : OspfRibV3) (new_routes : List Ospfv3Route)
    → Distinct rib.installed
    → (((update_v3 rib new_routes).1 ≡ 0) × ((update_v3 rib new_routes).2 ≡ 0))
      ↔ ((k : RouteKey) → lookup k (update_v3 rib new_routes).0.installed ≡ lookup k rib.installed)
unfolding update_v3
update_v3-unchanged rib new_routes distinct =
    apply_routes-unchanged merge_value value_eq value_eq→eq value_eq_refl rib.installed
      (map entry_of new_routes) distinct
