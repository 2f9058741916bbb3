-- ===== src/Instance/Maintenance.antt =====
-- `periodic_maintenance` (src/instance.rs), and the steps that the daemon takes an instance through.
-- Logging is left out.
pub mod Loop
pub mod Steps
use ospfd.Common.{
  ℕ, Bool, true, false, not, ◌||◌, Option, none, some, List, [], ◌∷◌, ◌++◌, if◌then◌else◌, Ipv4Addr,
  Outcome, ok, ◌>>=◌,
}
use ospfd.Area.{Area}
use ospfd.Lsdb.Store.{flush_max_age, self_originated_due_for_refresh}
use ospfd.Spf.Table.{get}
use ospfd.Instance.State.{OspfInstance, Response}
use ospfd.Instance.Describe.{is_empty}
use ospfd.Instance.Originate.{originate_router_lsas}
use ospfd.Instance.Flood.{flood_own}

unfoldable pub any_refresh_due : List (Ipv4Addr × Area) → ℕ → Bool
any_refresh_due [] now = false
any_refresh_due ((k, a) ∷ as_) now =
    not (is_empty (self_originated_due_for_refresh a.lsdb now)) || any_refresh_due as_ now

-- The areas with their databases purged, and whether anything was.
unfoldable pub purge_areas : List (Ipv4Addr × Area) → ℕ → List (Ipv4Addr × Area) × Bool
purge_areas [] now = ([], false)
purge_areas ((k, a) ∷ as_) now =
    let rest = purge_areas as_ now in
    let purged = flush_max_age a.lsdb now in
    ((k, record a { lsdb = purged.0 }) ∷ rest.0, not (is_empty purged.1) || rest.1)

unfoldable pub purge : OspfInstance → ℕ → OspfInstance × Bool
purge inst now =
    let areas = purge_areas inst.areas now in
    let ext = flush_max_age inst.as_external_lsdb now in
    (record inst { areas = areas.0; as_external_lsdb = ext.0 }, areas.1 || not (is_empty ext.1))

-- The instance, the responses that are added, and whether anything changed.
unfoldable pub periodic_maintenance :
    OspfInstance → ℕ → Outcome (OspfInstance × List Response × Bool)
periodic_maintenance inst now = do
  let due = any_refresh_due inst.areas now
  r ← (if due then originate_router_lsas inst now else ok (inst, []))
  let purged = purge r.0 now
  ok (purged.0, flood_own r.0 r.1, due || purged.1)
