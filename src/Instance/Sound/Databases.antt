-- ===== src/Instance/Sound/Databases.antt =====
-- What the handlers do to the databases keeps them valid.
use ospfd.Common.{
  ℕ, ◌≡◌, refl, Option, none, some, List, [], ◌∷◌, Ipv4Addr, Bool-cases, inl, inr, ◌==◌,
}
use ospfd.Packet.Lsa.Header.{LsaHeader, key}
use ospfd.Area.{Area}
use ospfd.Lsdb.Store.{Lsdb, bump_seq}
use ospfd.Lsdb.Store.Install.{IsValid}
use ospfd.Lsdb.Store.Bump.{bump_seq-IsValid}
use ospfd.Spf.Table.{get, put}
use ospfd.Instance.State.{OspfInstance}
use ospfd.Instance.Stored.{is_as_external, recover_lsa, recover_area, recover_lsas, recover}
use ospfd.Instance.Timers.{schedule_spf}
use ospfd.Instance.Sound.{IsSound, put-Values, get-Values, HasValidDatabase}

-- An area's database may be replaced by a valid one.
pub put_area-IsSound :
    (inst : OspfInstance) (area_id : Ipv4Addr) (a : Area)
    → IsValid a.lsdb
    → IsSound inst
    → IsSound (record inst { areas = put area_id a inst.areas })
put_area-IsSound inst area_id a v s = record {
  neighbors = s.neighbors;
  areas = put-Values HasValidDatabase area_id a inst.areas v s.areas;
  external = s.external;
}

pub put_external-IsSound :
    (inst : OspfInstance) (db : Lsdb)
    → IsValid db
    → IsSound inst
    → IsSound (record inst { as_external_lsdb = db })
put_external-IsSound inst db v s = record { neighbors = s.neighbors; areas = s.areas; external = v }

pub schedule_spf-IsSound :
    (inst : OspfInstance) (now : ℕ) → IsSound inst → IsSound (schedule_spf inst now)
unfolding schedule_spf
schedule_spf-IsSound inst now s = record {
  neighbors = s.neighbors;
  areas = s.areas;
  external = s.external;
}

pub found_area :
    (inst : OspfInstance) (area_id : Ipv4Addr) (a : Area)
    → IsSound inst
    → get area_id inst.areas ≡ some a
    → IsValid a.lsdb
found_area inst area_id a s h = get-Values HasValidDatabase area_id a inst.areas s.areas h

recover_lsa-IsSound :
    (inst : OspfInstance) (area_id : Ipv4Addr) (h : LsaHeader)
    → IsSound inst
    → IsSound (recover_lsa inst area_id h).0
unfolding recover_lsa
recover_lsa-IsSound inst area_id h s = elim (Bool-cases (h.advertising_router == inst.router_id)) [
  | inr other ↦ rw other s
  | inl ours ↦ elim (Bool-cases (is_as_external h.ls_type)) [
    | inl ext ↦
        rw (ours, ext)
          (put_external-IsSound inst (bump_seq inst.as_external_lsdb (key h) h.ls_sequence_number).0
            (bump_seq-IsValid inst.as_external_lsdb (key h) h.ls_sequence_number s.external) s)
    | inr int ↦ rw (ours, int) (by_area (get area_id inst.areas) refl)
  ]
]
  where
    by_area :
        (o : Option Area) → get area_id inst.areas ≡ o → IsSound (recover_area inst area_id h o).0
    by_area none e = s
    by_area (some a) e =
        put_area-IsSound inst area_id
          (record a { lsdb = (bump_seq a.lsdb (key h) h.ls_sequence_number).0 })
          (bump_seq-IsValid a.lsdb (key h) h.ls_sequence_number (found_area inst area_id a s e)) s

recover_lsas-IsSound :
    (inst : OspfInstance) (area_id : Ipv4Addr) (hs : List LsaHeader)
    → IsSound inst
    → IsSound (recover_lsas inst area_id hs).0
unfolding recover_lsas
recover_lsas-IsSound inst area_id [] s = s
recover_lsas-IsSound inst area_id (h ∷ hs) s =
    recover_lsas-IsSound (recover_lsa inst area_id h).0 area_id hs
      (recover_lsa-IsSound inst area_id h s)

pub recover-IsSound :
    (inst : OspfInstance) (area_id : Ipv4Addr) (hs : List LsaHeader) (now : ℕ)
    → IsSound inst
    → IsSound (recover inst area_id hs now)
unfolding recover
recover-IsSound inst area_id hs now s =
    let r = recover_lsas inst area_id hs in
    let t = recover_lsas-IsSound inst area_id hs s in
    elim (Bool-cases r.1) [
      | inl bumped ↦ rw bumped (schedule_spf-IsSound r.0 now t)
      | inr same ↦ rw same t
    ]
