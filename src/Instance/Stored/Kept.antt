-- ===== src/Instance/Stored/Kept.antt =====
-- The recovery of stale LSAs of our own (`process_dd`, src/instance.rs) leaves the interfaces alone.
use ospfd.Common.{
  ℕ, ◌≡◌, refl, ◌∙◌, arith, ◌==◌, Option, none, some, List, [], ◌∷◌, Ipv4Addr, Bool-cases, inl, inr,
}
use ospfd.Packet.Lsa.Header.{LsaHeader}
use ospfd.Area.{Area}
use ospfd.Spf.Table.{get}
use ospfd.Instance.State.{OspfInstance}
use ospfd.Instance.Timers.{schedule_spf}
use ospfd.Instance.Stored.{is_as_external, recover_area, recover_lsa, recover_lsas, recover}

recover_lsa-interfaces :
    (inst : OspfInstance) (area_id : Ipv4Addr) (l : LsaHeader)
    → (recover_lsa inst area_id l).0.interfaces ≡ inst.interfaces
unfolding recover_lsa
recover_lsa-interfaces inst area_id l = elim (Bool-cases (l.advertising_router == inst.router_id)) [
  | inr other ↦ rw other refl
  | inl ours ↦ elim (Bool-cases (is_as_external l.ls_type)) [
    | inl ext ↦ rw (ours, ext) refl
    | inr int ↦ rw (ours, int) (by_area (get area_id inst.areas))
  ]
]
  where
    by_area : (o : Option Area) → (recover_area inst area_id l o).0.interfaces ≡ inst.interfaces
    by_area none = refl
    by_area (some a) = refl

recover_lsas-interfaces :
    (inst : OspfInstance) (area_id : Ipv4Addr) (ls : List LsaHeader)
    → (recover_lsas inst area_id ls).0.interfaces ≡ inst.interfaces
unfolding recover_lsas
recover_lsas-interfaces inst area_id [] = refl
recover_lsas-interfaces inst area_id (l ∷ ls) =
    recover_lsas-interfaces (recover_lsa inst area_id l).0 area_id ls
    ∙ recover_lsa-interfaces inst area_id l

schedule_spf-interfaces :
    (inst : OspfInstance) (now : ℕ) → (schedule_spf inst now).interfaces ≡ inst.interfaces
unfolding schedule_spf
schedule_spf-interfaces inst now = ground arith

pub recover-interfaces :
    (inst : OspfInstance) (area_id : Ipv4Addr) (ls : List LsaHeader) (now : ℕ)
    → (recover inst area_id ls now).interfaces ≡ inst.interfaces
unfolding recover
recover-interfaces inst area_id ls now =
    let r = recover_lsas inst area_id ls in
    let same = recover_lsas-interfaces inst area_id ls in
    elim (Bool-cases r.1) [
      | inl bumped ↦ rw bumped (schedule_spf-interfaces r.0 now ∙ same)
      | inr none_bumped ↦ rw none_bumped same
    ]
