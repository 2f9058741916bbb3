-- ===== src/Instance/Sound/Updates.antt =====
-- `process_lsu` keeps the instance sound.
use ospfd.Common.{
  ℕ, ◌≡◌, refl, arith, Bool, true, false, ◌&&◌, ◌||◌, Option, none, some, List, [], ◌∷◌, Ipv4Addr,
  Bool-cases, inl, inr, if◌then◌else◌, ok, Ensures, Ensures->>=,
}
use ospfd.Packet.Header.{OspfHeader}
use ospfd.Packet.Exchange.{LsUpdatePacket}
use ospfd.Packet.Lsa.Header.{LsaKey}
use ospfd.Packet.Lsa.Codec.{Lsa, key}
use ospfd.Neighbor.Machine as Peer
use ospfd.Neighbor.Machine.{Neighbor, rank}
use ospfd.Interface.Machine.{OspfInterface}
use ospfd.Area.{Area}
use ospfd.Lsdb.Store.{install, InstallResult, new, updated, duplicate, older}
use ospfd.Lsdb.Store.Install.{install-IsValid}
use ospfd.Spf.Table.{get, put}
use ospfd.Instance.State.{OspfInstance, Response, get_elem?, is_abr}
use ospfd.Instance.Stored.{is_as_external}
use ospfd.Instance.Originate.{originate_router_lsas, originate_network_lsas}
use ospfd.Instance.Originate.Summary.{originate_summary_lsas}
use ospfd.Instance.Update.{
  LsuState, install_lsa, install_in_area, retain_other, answered, answered_on, answered_at,
  remove_request, by_result, process_lsa, process_lsas, start, after_full, reoriginate, process_lsu,
  area_is_stub,
}
use ospfd.Instance.Sound.{
  IsQuiet, HasQuietNeighbors, put-Values, get-Values, set-All, get_elem-All, IsSound,
}
use ospfd.Common.{All}
use ospfd.Instance.Sound.Databases.{
  put_area-IsSound, put_external-IsSound, found_area, schedule_spf-IsSound,
}
use ospfd.Instance.Sound.Origination.{
  Sound, originate_router_lsas-Sound, originate_network_lsas-Sound, originate_summary_lsas-Sound,
}

install_lsa-IsSound :
    (inst : OspfInstance) (area_id : Ipv4Addr) (l : Lsa) (now : ℕ)
    → IsSound inst
    → IsSound (install_lsa inst area_id l now).0
unfolding install_lsa
install_lsa-IsSound inst area_id l now s = elim (Bool-cases (is_as_external l.header.ls_type)) [
  | inl ext ↦ rw ext (
      put_external-IsSound inst (install inst.as_external_lsdb l now).0
        (install-IsValid inst.as_external_lsdb l now s.external) s)
  | inr int ↦ rw int (by_area (get area_id inst.areas) refl)
]
  where
    by_area :
        (o : Option Area)
        → get area_id inst.areas ≡ o
        → IsSound (install_in_area inst area_id l now o).0
    by_area none e = s
    by_area (some a) e =
        put_area-IsSound inst area_id (record a { lsdb = (install a.lsdb l now).0 })
          (install-IsValid a.lsdb l now (found_area inst area_id a s e)) s

retain_none : (k : LsaKey) (ks : List LsaKey) → ks ≡ [] → retain_other k ks ≡ []
unfolding retain_other
retain_none k [] h = refl
retain_none k (j ∷ js) h = cc

answered-IsQuiet : (k : LsaKey) (n : Neighbor) (now : ℕ) → IsQuiet n → IsQuiet (answered k n now).0
unfolding answered Peer.handle_event
answered-IsQuiet k n now q h = ground (arith, q, retain_none k n.ls_request_list)

module _ (is : List OspfInterface) (idx : ℕ) (id : Ipv4Addr) (k : LsaKey) (now : ℕ)
    (q : All HasQuietNeighbors is) where
  answered_on-All :
      (i : OspfInterface) (o : Option Neighbor)
      → HasQuietNeighbors i
      → get id i.neighbors ≡ o
      → All HasQuietNeighbors (answered_on is idx i id k now o).0
  answered_on-All i none h e = q
  answered_on-All i (some n) h e =
      set-All HasQuietNeighbors is idx
        (record i { neighbors = put id (answered k n now).0 i.neighbors }) q
        (put-Values IsQuiet id (answered k n now).0 i.neighbors
          (answered-IsQuiet k n now (get-Values IsQuiet id n i.neighbors h e)) h)

  answered_at-All :
      (o : Option OspfInterface)
      → get_elem? is idx ≡ o
      → All HasQuietNeighbors (answered_at is idx id k now o).0
  answered_at-All none e = q
  answered_at-All (some i) e =
      answered_on-All i (get id i.neighbors) (get_elem-All HasQuietNeighbors is idx i q e) refl

  remove_request-All : All HasQuietNeighbors (remove_request is idx id k now).0
  unfolding remove_request
  remove_request-All = answered_at-All (get_elem? is idx) refl

module _ (idx : ℕ) (i : OspfInterface) (src id : Ipv4Addr) (stub : Bool) (now : ℕ) where
  acknowledged-IsSound :
      (inst : OspfInstance) (k : LsaKey)
      → IsSound inst
      → IsSound (record inst { interfaces = (remove_request inst.interfaces idx id k now).0 })
  acknowledged-IsSound inst k s = record {
    neighbors = remove_request-All inst.interfaces idx id k now s.neighbors;
    areas = s.areas;
    external = s.external;
  }

  by_result-IsSound :
      (l : Lsa) (s : LsuState) (o : Option InstallResult)
      → IsSound s.inst
      → IsSound (by_result idx i src id l now s o).inst
  by_result-IsSound l s none h = h
  by_result-IsSound l s (some new) h = acknowledged-IsSound s.inst (key l) h
  by_result-IsSound l s (some updated) h = acknowledged-IsSound s.inst (key l) h
  by_result-IsSound l s (some duplicate) h = acknowledged-IsSound s.inst (key l) h
  by_result-IsSound l s (some older) h = h

  process_lsa-IsSound :
      (s : LsuState) (l : Lsa)
      → IsSound s.inst
      → IsSound (process_lsa idx i src id stub now s l).inst
  unfolding process_lsa
  process_lsa-IsSound s l h = elim (Bool-cases (is_as_external l.header.ls_type && stub)) [
    | inl dropped ↦ rw dropped h
    | inr taken ↦
        let r = install_lsa s.inst i.area_id l now in
        rw taken (
          by_result-IsSound l (record s { inst = r.0 }) r.1
            (install_lsa-IsSound s.inst i.area_id l now h))
  ]

  process_lsas-IsSound :
      (s : LsuState) (ls : List Lsa)
      → IsSound s.inst
      → IsSound (process_lsas idx i src id stub now s ls).inst
  unfolding process_lsas
  process_lsas-IsSound s [] h = h
  process_lsas-IsSound s (l ∷ ls) h =
      process_lsas-IsSound (process_lsa idx i src id stub now s l) ls (process_lsa-IsSound s l h)

abbrev SoundResponse : OspfInstance × List Response → Type 0
SoundResponse p = IsSound p.0

reoriginate-Sound :
    (inst : OspfInstance) (now : ℕ) → IsSound inst → Ensures SoundResponse (reoriginate inst now)
unfolding reoriginate
reoriginate-Sound inst now h =
    Ensures->>= Sound SoundResponse (originate_router_lsas inst now) _
      (originate_router_lsas-Sound inst now h)
      (λ r s.
        Ensures->>= Sound SoundResponse (originate_network_lsas r.0 now) _
          (originate_network_lsas-Sound r.0 now s)
          (λ n t.
            Ensures->>= Sound SoundResponse
              (if is_abr n.0 then originate_summary_lsas n.0 now else ok (n.0, [])) _
              (elim (Bool-cases (is_abr n.0)) [
                | inl border ↦ rw border (originate_summary_lsas-Sound n.0 now t)
                | inr inner ↦ rw inner t
              ])
              (λ u v. v)))

after_full-Sound :
    (b : Bool) (inst : OspfInstance) (now : ℕ)
    → IsSound inst
    → Ensures SoundResponse (after_full b inst now)
after_full-Sound true inst now h = reoriginate-Sound inst now h
after_full-Sound false inst now h = h

pub process_lsu-Sound :
    (inst : OspfInstance) (idx : ℕ) (i : OspfInterface) (src : Ipv4Addr) (h : OspfHeader)
    (p : LsUpdatePacket) (now : ℕ)
    → IsSound inst
    → Ensures SoundResponse (process_lsu inst idx i src h p now)
unfolding process_lsu
process_lsu-Sound inst idx i src h p now sound =
    let stub = area_is_stub inst i.area_id in
    let s = process_lsas idx i src h.router_id stub now (start inst) p.lsas in
    Ensures->>= SoundResponse SoundResponse (after_full s.neighbor_reached_full s.inst now) _
      (after_full-Sound s.neighbor_reached_full s.inst now
        (process_lsas-IsSound idx i src h.router_id stub now (start inst) p.lsas sound))
      (λ r t. elim (Bool-cases (s.neighbor_reached_full || s.schedule_spf)) [
        | inl due ↦ rw due (schedule_spf-IsSound r.0 now t)
        | inr quiet ↦ rw quiet t
      ])
