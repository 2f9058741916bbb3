-- ===== src/Instance/Flood/Reach.antt =====
-- Where LSAs are flooded to.
use ospfd.Common.{
  ℕ, zero, suc, ◌+◌, ◌≤◌, ◌≡◌, ◌≢◌, refl, sym, arith, true, false, not, ◌||◌, Option, some, List,
  [], ◌∷◌, Ipv4Addr, Bool-cases, inl, inr, ◌⊎◌, In, append-In, In-append,
}
use mathlib.Core.Path.{subst}
use mathlib.Core.Option.{some-injective}
use ospfd.Packet.Lsa.Codec.{Lsa}
use ospfd.Neighbor.Machine.{Neighbor, rank}
use ospfd.Interface.Election.{filter}
use ospfd.Interface.Election.Maximum.{In-filter, filter-In}
use ospfd.Interface.Machine.{OspfInterface}
use ospfd.Instance.State.{OspfInstance, Response, get_elem?}
use ospfd.Instance.Describe.{is_empty}
use ospfd.Instance.Stored.{is_as_external}
use ospfd.Instance.Originate.{is_down}
use ospfd.Instance.Flood.{
  any_eligible, area_accepts_ext, may_flood, is_input, lsu_response, flood_on, flood_from,
  flood_lsas_to_others,
}

-- A neighbor in Exchange or better that is not the router that the LSAs came from.
abbrev pub IsEligible : Ipv4Addr → Ipv4Addr × Neighbor → Type 0
IsEligible from_router x = (5 ≤ rank x.1.state) × (x.1.router_id ≢ from_router)

module _ (from_router : Ipv4Addr) where
  eligible-In :
      (ns : List (Ipv4Addr × Neighbor))
      → any_eligible from_router ns ≡ true
      → (x : Ipv4Addr × Neighbor) × In x ns × IsEligible from_router x
  unfolding any_eligible
  eligible-In [] h = cc
  eligible-In ((id, n) ∷ ns) h = elim (Bool-cases (any_eligible from_router ns)) [
    | inl later ↦ let (x, m, e) = eligible-In ns later in (x, inr m, e)
    | inr here ↦ ((id, n), inl refl, ground (arith, h, here))
  ]

  In-eligible :
      (ns : List (Ipv4Addr × Neighbor)) (x : Ipv4Addr × Neighbor)
      → In x ns
      → IsEligible from_router x
      → any_eligible from_router ns ≡ true
  unfolding any_eligible
  In-eligible [] x m e = absurd m
  In-eligible ((id, n) ∷ ns) x (inl same) e =
      let here = subst (IsEligible from_router) same e in ground (arith, here)
  In-eligible ((id, n) ∷ ns) x (inr m) e = ground (arith, In-eligible ns x m e)

-- The LSAs that an interface may carry: all, but no AS-external-LSA into an area that accepts none.
abbrev pub Carries : OspfInstance → OspfInterface → List Lsa → Lsa → Type 0
Carries inst i lsas l =
    In l lsas
    × ((area_accepts_ext inst i.area_id ≡ true) ⊎ (is_as_external l.header.ls_type ≡ false))

-- The interface is up, is not the one that the LSAs came in on, and has an eligible neighbor.
pub record MayReceive (input : Option ℕ) (from_router : Ipv4Addr) (k : ℕ) (i : OspfInterface)
    : Type 0 where
  pub elsewhere : is_input input k ≡ false
  pub up : is_down i ≡ false
  pub neighbor : Ipv4Addr × Neighbor
  pub member : In neighbor i.neighbors
  pub eligible : IsEligible from_router neighbor

carried-eq :
    (inst : OspfInstance) (i : OspfInterface) (l : Lsa)
    → may_flood (area_accepts_ext inst i.area_id) l ≡ true
    → (area_accepts_ext inst i.area_id ≡ true) ⊎ (is_as_external l.header.ls_type ≡ false)
unfolding may_flood
carried-eq inst i l h = ground arith

carried-may :
    (inst : OspfInstance) (i : OspfInterface) (l : Lsa)
    → (area_accepts_ext inst i.area_id ≡ true) ⊎ (is_as_external l.header.ls_type ≡ false)
    → may_flood (area_accepts_ext inst i.area_id) l ≡ true
unfolding may_flood
carried-may inst i l h = ground arith

nonempty : {A : Type 0} (x : A) (xs : List A) → In x xs → is_empty xs ≡ false
nonempty x [] m = absurd m
nonempty x (y ∷ ys) m = refl

In-one : {A : Type 0} (x y : A) → In x (y ∷ []) → x ≡ y
In-one x y (inl e) = e
In-one x y (inr m) = absurd m

module _ (inst : OspfInstance) (input : Option ℕ) (from_router : Ipv4Addr) (lsas : List Lsa) where
  abbrev filtered : OspfInterface → List Lsa
  filtered i = filter (may_flood (area_accepts_ext inst i.area_id)) lsas

  -- A response is the update for an interface that may receive one, with what it carries.
  abbrev pub IsFlooded : Response → ℕ → OspfInterface → Type 0
  IsFlooded r k i =
      MayReceive input from_router k i
      × (carried : List Lsa) × (r ≡ lsu_response inst i carried)
      × (is_empty carried ≡ false)
      × ((l : Lsa) → In l carried → Carries inst i lsas l)

  flood_on-IsFlooded :
      (k : ℕ) (i : OspfInterface) (r : Response)
      → In r (flood_on inst input from_router lsas k i)
      → IsFlooded r k i
  unfolding flood_on
  flood_on-IsFlooded k i r m =
      elim (Bool-cases
        (is_down i || (is_input input k || not (any_eligible from_router i.neighbors)))) [
          | inl skipped ↦ absurd (rw skipped at m)
          | inr open_ ↦ elim (Bool-cases (is_empty (filtered i))) [
            | inl none_left ↦ absurd (rw (open_, none_left) at m)
            | inr some_left ↦
                let here : In r (lsu_response inst i (filtered i) ∷ []) =
                  rw (open_, some_left) at m in
                let (x, j, e) = eligible-In from_router i.neighbors (ground (arith, open_)) in
                (
                  record {
                    elsewhere = ground (arith, open_);
                    up = ground (arith, open_);
                    neighbor = x;
                    member = j;
                    eligible = e;
                  },
                  filtered i,
                  In-one r (lsu_response inst i (filtered i)) here,
                  some_left,
                  λ l n.
                      let (in_, may) =
                        filter-In (may_flood (area_accepts_ext inst i.area_id)) l lsas n in
                      (in_, carried-eq inst i l may),
                )
          ]
        ]

  Carries-flood_on :
      (k : ℕ) (i : OspfInterface) (l : Lsa)
      → MayReceive input from_router k i
      → Carries inst i lsas l
      → (carried : List Lsa) × In
          (lsu_response inst i carried)
          (flood_on inst input from_router lsas k i)
        × In l carried
  unfolding flood_on
  Carries-flood_on k i l may (in_, ext) =
      let there : In l (filtered i) =
        In-filter (may_flood (area_accepts_ext inst i.area_id)) l lsas in_
          (carried-may inst i l ext) in
      let some_left : is_empty (filtered i) ≡ false = nonempty l (filtered i) there in
      let elig = In-eligible from_router i.neighbors may.neighbor may.member may.eligible in
      (filtered i, rw (may.up, may.elsewhere, elig, some_left) (inl refl), there)

  flood_from-IsFlooded :
      (idx : ℕ) (is : List OspfInterface) (r : Response)
      → In r (flood_from inst input from_router lsas idx is)
      → (k : ℕ) × (i : OspfInterface) × (get_elem? is k ≡ some i) × IsFlooded r (idx + k) i
  unfolding flood_from
  flood_from-IsFlooded idx [] r m = absurd m
  flood_from-IsFlooded idx (i ∷ is) r m =
      elim (append-In r (flood_on inst input from_router lsas idx i)
        (flood_from inst input from_router lsas (suc idx) is) m) [
          | inl here ↦ (
            zero,
            i,
            refl,
            subst (λ k. IsFlooded r k i) (omega arith) (flood_on-IsFlooded idx i r here),
          )
          | inr later ↦
              let (k, j, e, f) = flood_from-IsFlooded (suc idx) is r later in
              (suc k, j, e, subst (λ n. IsFlooded r n j) (omega arith) f)
        ]

  Carries-flood_from :
      (idx : ℕ) (is : List OspfInterface) (k : ℕ) (i : OspfInterface) (l : Lsa)
      → get_elem? is k ≡ some i
      → MayReceive input from_router (idx + k) i
      → Carries inst i lsas l
      → (carried : List Lsa) × In
          (lsu_response inst i carried)
          (flood_from inst input from_router lsas idx is)
        × In l carried
  unfolding flood_from
  Carries-flood_from idx [] k i l e may c = cc
  Carries-flood_from idx (j ∷ is) zero i l e may c =
      let same : j ≡ i = some-injective j i e in
      let at : MayReceive input from_router idx j =
        subst (λ x. MayReceive input from_router idx x) (sym same)
          (subst (λ n. MayReceive input from_router n i) (omega arith) may) in
      let (carried, m, n) =
        Carries-flood_on idx j l at (subst (λ x. Carries inst x lsas l) (sym same) c) in
      (
        carried,
        subst
            (λ x.
              In (lsu_response inst x carried)
                (flood_from inst input from_router lsas idx (j ∷ is)))
            same
            (In-append (lsu_response inst j carried) (flood_on inst input from_router lsas idx j)
              (flood_from inst input from_router lsas (suc idx) is) (inl m)),
        n,
      )
  Carries-flood_from idx (j ∷ is) (suc k) i l e may c =
      let (carried, m, n) =
        Carries-flood_from (suc idx) is k i l e
          (subst (λ x. MayReceive input from_router x i) (omega arith) may) c in
      (
        carried,
        In-append (lsu_response inst i carried) (flood_on inst input from_router lsas idx j)
            (flood_from inst input from_router lsas (suc idx) is) (inr m),
        n,
      )

-- Each packet that is flooded is a nonempty update for an interface that is up, is not the one that
-- the LSAs came in on, and has a neighbor in Exchange or better other than their sender; it holds
-- LSAs that were to be flooded, and no AS-external-LSA where the area accepts none.
pub flood_lsas_to_others-IsFlooded :
    (inst : OspfInstance) (input : Option ℕ) (from_router : Ipv4Addr) (lsas : List Lsa)
    (r : Response)
    → In r (flood_lsas_to_others inst input from_router lsas)
    → (k : ℕ) × (i : OspfInterface) × (get_elem? inst.interfaces k ≡ some i)
      × IsFlooded inst input from_router lsas r k i
unfolding flood_lsas_to_others
flood_lsas_to_others-IsFlooded inst input from_router lsas r m =
    let (k, i, e, f) = flood_from-IsFlooded inst input from_router lsas 0 inst.interfaces r m in
    (k, i, e, subst (λ n. IsFlooded inst input from_router lsas r n i) (omega arith) f)

-- An LSA that is to be flooded is in a packet for each interface that is up, is not the one that it
-- came in on and has a neighbor in Exchange or better other than its sender, but for an
-- AS-external-LSA where the area accepts none.
pub Carries-flood_lsas_to_others :
    (inst : OspfInstance) (input : Option ℕ) (from_router : Ipv4Addr) (lsas : List Lsa) (k : ℕ)
    (i : OspfInterface) (l : Lsa)
    → get_elem? inst.interfaces k ≡ some i
    → MayReceive input from_router k i
    → Carries inst i lsas l
    → (carried : List Lsa) × In
        (lsu_response inst i carried)
        (flood_lsas_to_others inst input from_router lsas)
      × In l carried
unfolding flood_lsas_to_others
Carries-flood_lsas_to_others inst input from_router lsas k i l e may c =
    Carries-flood_from inst input from_router lsas 0 inst.interfaces k i l e
      (subst (λ n. MayReceive input from_router n i) (omega arith) may) c
