-- ===== src/Instance/Sound/Origination.antt =====
-- Originating LSAs keeps the instance sound.
use ospfd.Common.{
  ℕ, ◌≡◌, refl, Option, none, some, List, [], ◌∷◌, ◌++◌, Ipv4Addr, Bool-cases, inl, inr, ◌==◌,
  if◌then◌else◌, Outcome, ok, ◌>>=◌, Ensures, Ensures->>=, Ensures->>=_any, unspecified,
}
use ospfd.Packet.Hello.{standard}
use ospfd.Packet.Lsa.Header.{LsaType}
use ospfd.Packet.Lsa.Body.{RouterLink, LsaBody}
use ospfd.Packet.Lsa.Codec as Codec
use ospfd.Packet.Lsa.Codec.{Lsa}
use ospfd.Interface.Election.{filter}
use ospfd.Interface.Machine.{OspfInterface}
use ospfd.Area.{Area, AreaType, normal, stub, nssa}
use ospfd.Lsdb.Store.{Lsdb, originate_router_lsa, expect}
use ospfd.Lsdb.Store.Install.{IsValid, install-IsValid}
use ospfd.Spf.Routes.{SpfRoute}
use ospfd.Spf.Table.{get}
use ospfd.Instance.State.{OspfInstance, is_abr}
use ospfd.Instance.Originate.{
  originate_in, originate_each, originate_router_lsas, router_in_area, area_links, router_flags,
  own_lsa, with_cksum, install_some, install_own, network_in_area, originate_networks,
  originate_network_lsas, is_full_dr, is_empty, area_ids,
}
use ospfd.Instance.Originate.Summary.{
  summary_in, default_at, originate_defaults, route_into, routes_into, routes_out, summarize,
  source_routes, originate_summary_lsas, already_local, summary_body,
}
use ospfd.Instance.Sound.{IsSound}
use ospfd.Instance.Sound.Databases.{put_area-IsSound, found_area}

abbrev pub Sound : OspfInstance × List (Ipv4Addr × Lsa) → Type 0
Sound p = IsSound p.0

abbrev pub Valid : {B : Type 0} → Lsdb × B → Type 0
Valid p = IsValid p.0

originate_router_lsa-IsValid :
    (db : Lsdb) (rid : Ipv4Addr) (flags : ℕ) (links : List RouterLink) (options now : ℕ)
    → IsValid db
    → Ensures Valid (originate_router_lsa db rid flags links options now)
unfolding originate_router_lsa
originate_router_lsa-IsValid db rid flags links options now v =
    Ensures->>=_any Valid (Codec.encode _) _ (λ encoded.
      Ensures->>=_any Valid (expect (Codec.parse encoded)) _ (λ l. install-IsValid db l now v))

pub install_own-IsValid :
    (db : Lsdb) (rid : Ipv4Addr) (kind : LsaType) (id : Ipv4Addr) (body : LsaBody) (now : ℕ)
    → IsValid db
    → Ensures Valid (install_own db rid kind id body now)
unfolding install_own
install_own-IsValid db rid kind id body now v =
    Ensures->>=_any Valid (own_lsa rid kind id _ body) _
      (λ l. Ensures->>=_any Valid (with_cksum l) _ installed)
  where
    installed : (c : Option Lsa) → IsValid (install_some db c now)
    installed none = v
    installed (some l) = install-IsValid db l now v

-- A loop of originations: the instance goes through, and the LSAs are collected.
then-Sound :
    (m : Outcome (OspfInstance × List (Ipv4Addr × Lsa)))
    (f : OspfInstance → Outcome (OspfInstance × List (Ipv4Addr × Lsa)))
    → Ensures Sound m
    → ((i : OspfInstance) → IsSound i → Ensures Sound (f i))
    → Ensures Sound (do p ← m; q ← f p.0; ok (q.0, p.1 ++ q.1))
then-Sound m f h k =
    Ensures->>= Sound Sound m _ h (λ p s. Ensures->>= Sound Sound (f p.0) _ (k p.0 s) (λ q t. t))

module _ (inst : OspfInstance) (now : ℕ) (s : IsSound inst) where
  router_in_area-Sound :
      (area_id : Ipv4Addr) (links : List RouterLink) (o : Option Area)
      → get area_id inst.areas ≡ o
      → Ensures Sound (router_in_area inst area_id links now o)
  router_in_area-Sound area_id links none e = s
  router_in_area-Sound area_id links (some a) e =
      Ensures->>= Valid Sound _ _
        (originate_router_lsa-IsValid a.lsdb inst.router_id (router_flags inst) links standard now
          (found_area inst area_id a s e))
        (λ p v. put_area-IsSound inst area_id (record a { lsdb = p.0 }) v s)

  originate_in-Sound : (area_id : Ipv4Addr) → Ensures Sound (originate_in inst area_id now)
  unfolding originate_in
  originate_in-Sound area_id =
      let links = area_links area_id inst.interfaces in
      elim (Bool-cases (is_empty links)) [
        | inl none_up ↦ rw none_up s
        | inr up ↦ rw up (router_in_area-Sound area_id links (get area_id inst.areas) refl)
      ]

  network_in_area-Sound :
      (i : OspfInterface) (o : Option Area)
      → get i.area_id inst.areas ≡ o
      → Ensures Sound (network_in_area inst i now o)
  network_in_area-Sound i none e = s
  network_in_area-Sound i (some a) e =
      Ensures->>= Valid Sound _ _
        (install_own-IsValid a.lsdb inst.router_id LsaType.network i.address _ now
          (found_area inst i.area_id a s e))
        (λ p v. put_area-IsSound inst i.area_id (record a { lsdb = p.0 }) v s)

  summary_in-Sound :
      (area_id : Ipv4Addr) (a : Area) (prefix : Ipv4Addr) (body : LsaBody)
      → get area_id inst.areas ≡ some a
      → Ensures Sound (summary_in inst area_id a prefix body now)
  summary_in-Sound area_id a prefix body e =
      Ensures->>= Valid Sound _ _
        (install_own-IsValid a.lsdb inst.router_id LsaType.summary_network prefix body now
          (found_area inst area_id a s e))
        (λ p v. put_area-IsSound inst area_id (record a { lsdb = p.0 }) v s)

  default_at-Sound :
      (area_id : Ipv4Addr) (o : Option Area)
      → get area_id inst.areas ≡ o
      → Ensures Sound (default_at inst area_id now o)
  default_at-Sound area_id none e = s
  default_at-Sound area_id (some a) e = by_type a.area_type refl
    where
      by_type :
          (t : AreaType) → a.area_type ≡ t → Ensures Sound (default_at inst area_id now (some a))
      by_type normal h = rw h s
      by_type stub h =
          rw h (summary_in-Sound area_id a unspecified (summary_body unspecified a.default_cost) e)
      by_type nssa h =
          rw h (summary_in-Sound area_id a unspecified (summary_body unspecified a.default_cost) e)

  route_into-Sound :
      (dest : Ipv4Addr) (r : SpfRoute) (o : Option Area)
      → get dest inst.areas ≡ o
      → Ensures Sound (route_into inst dest r now o)
  route_into-Sound dest r none e = s
  route_into-Sound dest r (some a) e =
      elim (Bool-cases (already_local inst.interfaces dest r.prefix)) [
        | inl local ↦ rw local s
        | inr remote ↦ rw remote (summary_in-Sound dest a r.prefix _ e)
      ]

originate_each-Sound :
    (inst : OspfInstance) (ids : List Ipv4Addr) (now : ℕ)
    → IsSound inst
    → Ensures Sound (originate_each inst ids now)
unfolding originate_each
originate_each-Sound inst [] now s = s
originate_each-Sound inst (a ∷ ids) now s =
    then-Sound (originate_in inst a now) (λ i. originate_each i ids now)
      (originate_in-Sound inst now s a) (λ i t. originate_each-Sound i ids now t)

pub originate_router_lsas-Sound :
    (inst : OspfInstance) (now : ℕ) → IsSound inst → Ensures Sound (originate_router_lsas inst now)
unfolding originate_router_lsas
originate_router_lsas-Sound inst now s = originate_each-Sound inst (area_ids inst) now s

originate_networks-Sound :
    (inst : OspfInstance) (is : List OspfInterface) (now : ℕ)
    → IsSound inst
    → Ensures Sound (originate_networks inst is now)
unfolding originate_networks
originate_networks-Sound inst [] now s = s
originate_networks-Sound inst (i ∷ is) now s =
    then-Sound (network_in_area inst i now (get i.area_id inst.areas))
      (λ j. originate_networks j is now)
      (network_in_area-Sound inst now s i (get i.area_id inst.areas) refl)
      (λ j t. originate_networks-Sound j is now t)

pub originate_network_lsas-Sound :
    (inst : OspfInstance) (now : ℕ) → IsSound inst → Ensures Sound (originate_network_lsas inst now)
unfolding originate_network_lsas
originate_network_lsas-Sound inst now s =
    originate_networks-Sound inst (filter is_full_dr inst.interfaces) now s

originate_defaults-Sound :
    (inst : OspfInstance) (ids : List Ipv4Addr) (now : ℕ)
    → IsSound inst
    → Ensures Sound (originate_defaults inst ids now)
unfolding originate_defaults
originate_defaults-Sound inst [] now s = s
originate_defaults-Sound inst (a ∷ ids) now s =
    then-Sound (default_at inst a now (get a inst.areas)) (λ i. originate_defaults i ids now)
      (default_at-Sound inst now s a (get a inst.areas) refl)
      (λ i t. originate_defaults-Sound i ids now t)

routes_into-Sound :
    (inst : OspfInstance) (dest : Ipv4Addr) (rs : List SpfRoute) (now : ℕ)
    → IsSound inst
    → Ensures Sound (routes_into inst dest rs now)
unfolding routes_into
routes_into-Sound inst dest [] now s = s
routes_into-Sound inst dest (r ∷ rs) now s =
    then-Sound (route_into inst dest r now (get dest inst.areas)) (λ i. routes_into i dest rs now)
      (route_into-Sound inst now s dest r (get dest inst.areas) refl)
      (λ i t. routes_into-Sound i dest rs now t)

routes_out-Sound :
    (inst : OspfInstance) (source : Ipv4Addr) (rs : List SpfRoute) (dests : List Ipv4Addr) (now : ℕ)
    → IsSound inst
    → Ensures Sound (routes_out inst source rs dests now)
unfolding routes_out
routes_out-Sound inst source rs [] now s = s
routes_out-Sound inst source rs (dest ∷ dests) now s =
    then-Sound (if source == dest then ok (inst, []) else routes_into inst dest rs now)
      (λ i. routes_out i source rs dests now)
      (elim (Bool-cases (source == dest)) [
        | inl same ↦ rw same s
        | inr other ↦ rw other (routes_into-Sound inst dest rs now s)
      ])
      (λ i t. routes_out-Sound i source rs dests now t)

summarize-Sound :
    (inst : OspfInstance) (sources : List (Ipv4Addr × List SpfRoute)) (now : ℕ)
    → IsSound inst
    → Ensures Sound (summarize inst sources now)
unfolding summarize
summarize-Sound inst [] now s = s
summarize-Sound inst ((source, rs) ∷ rest) now s =
    then-Sound (routes_out inst source rs (area_ids inst) now) (λ i. summarize i rest now)
      (routes_out-Sound inst source rs (area_ids inst) now s) (λ i t. summarize-Sound i rest now t)

pub originate_summary_lsas-Sound :
    (inst : OspfInstance) (now : ℕ) → IsSound inst → Ensures Sound (originate_summary_lsas inst now)
unfolding originate_summary_lsas
originate_summary_lsas-Sound inst now s = elim (Bool-cases (is_abr inst)) [
  | inr inner ↦ rw inner s
  | inl border ↦ rw border (
      Ensures->>=_any Sound (source_routes inst (area_ids inst) now) _ (λ sources.
        then-Sound (originate_defaults inst (area_ids inst) now) (λ i. summarize i sources now)
          (originate_defaults-Sound inst (area_ids inst) now s)
          (λ i t. summarize-Sound i sources now t)))
]
