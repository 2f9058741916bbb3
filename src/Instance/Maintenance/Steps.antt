-- ===== src/Instance/Maintenance/Steps.antt =====
-- Whatever the order of packets, ticks, timers and changes of interfaces, an instance stays sound.
use Prim.Native.String.{String}
use ospfd.Common.{
  map, ℕ, ◌≡◌, Bool, Option, List, [], Ipv4Addr, Bool-cases, inl, inr, if◌then◌else◌, Outcome, ok,
  Ensures, Ensures->>=, Ensures->>=_any, unspecified,
}
use mathlib.Core.Path.{subst}
use ospfd.Packet.Codec.{OspfPacket}
use ospfd.Packet.Lsa.Codec.{Lsa}
use ospfd.Spf.Routes.{SpfRoute}
use ospfd.Spf.Table.{get}
use ospfd.Instance.State.{OspfInstance, Response, RedistributeConfig}
use ospfd.Instance.Timers.{
  check_interfaces, check_neighbor_timers, refresh_interface_state, refresh_in, schedule_spf,
}
use ospfd.Instance.Tick.{emit_pending_dds, emit_pending_lsrs, pending_dds, pending_lsrs}
use ospfd.Instance.Originate.{originate_router_lsas, area_ids}
use ospfd.Instance.Originate.Summary.{run_spf, spf_areas, spf_in}
use ospfd.Instance.Originate.External.{ParsedSummaryAddress, originate_external_lsas}
use ospfd.Instance.Maintenance.{periodic_maintenance, any_refresh_due}
use ospfd.Instance.Maintenance.Loop.{
  send_hellos, expire_waits, send_responses, send_each, resolve_interface, resolve_in, hello_sent,
  waited,
}
use ospfd.Instance.Dispatch.{process_packet}
use ospfd.Instance.Dispatch.Invariant.{SoundAfter, process_packet-IsSound}
use ospfd.Instance.Sound.{IsSound}
use ospfd.Instance.Sound.Loop.{
  map-All, hello_sent-Values, waited-Values, send_each-All, resolve_in-All,
}
use ospfd.Instance.Sound.Timers.{
  with_interfaces-IsSound, check_interfaces-All, pending_dds-All, pending_lsrs-All, refresh_in-All,
  purge-IsSound,
}
use ospfd.Instance.Sound.Databases.{schedule_spf-IsSound}
use ospfd.Instance.Sound.Externals.{SoundExternals, originate_external_lsas-Sound}
use ospfd.Instance.Sound.Origination.{Sound, originate_router_lsas-Sound}

-- The answer of a step that did not panic.
ensured : {A : Type 0} (P : A → Type 0) (m : Outcome A) (a : A) → m ≡ ok a → Ensures P m → P a
ensured P m a e h = subst (Ensures P) e h

module _ {Statement : Type 0} (matches : Statement → Ipv4Addr → ℕ → Bool)
    (permits : Statement → Bool) (route_maps : String → Option (List Statement)) where
  -- What the daemon's loop does with an instance, one call at a time: the arms of `run_v2_instance`'s
  -- loop but the reload of the configuration, and the interfaces that the enrollment task resolves.
  pub data Step : OspfInstance → OspfInstance → Type 0 where
    packet :
        {inst after : OspfInstance} {rs : List Response} (sw_if_index : ℕ) (src : Ipv4Addr)
        (p : OspfPacket) (now : ℕ)
        → process_packet inst sw_if_index src p now ≡ ok (after, rs)
        → Step inst after
    timers :
        {inst after : OspfInstance} (now : ℕ)
        → (check_neighbor_timers inst now).0 ≡ after
        → Step inst after
    descriptions :
        {inst after : OspfInstance} (elapsed now : ℕ)
        → (emit_pending_dds inst elapsed now).0 ≡ after
        → Step inst after
    requests :
        {inst after : OspfInstance} (now : ℕ)
        → (emit_pending_lsrs inst now).0 ≡ after
        → Step inst after
    refresh :
        {inst after : OspfInstance} (sw_if_index : ℕ) (addr mask : Ipv4Addr) (up : Bool) (now : ℕ)
        → (refresh_interface_state inst sw_if_index addr mask up now).0 ≡ after
        → Step inst after
    maintenance :
        {inst after : OspfInstance} {rs : List Response} {changed : Bool} (now : ℕ)
        → periodic_maintenance inst now ≡ ok (after, rs, changed)
        → Step inst after
    externals :
        {inst after : OspfInstance} {ls : List Lsa} (redistribute : List RedistributeConfig)
        (prefixes : List (Ipv4Addr × Ipv4Addr)) (summaries : List ParsedSummaryAddress) (now : ℕ)
        → originate_external_lsas matches permits route_maps inst redistribute prefixes summaries
            now
          ≡ ok (after, ls)
        → Step inst after
    schedule :
        {inst after : OspfInstance} (now : ℕ) → schedule_spf inst now ≡ after → Step inst after
    calculation :
        {inst after : OspfInstance} {routes : List SpfRoute} (now : ℕ)
        → run_spf inst now ≡ ok (after, routes)
        → Step inst after
    hellos : {inst after : OspfInstance} (now : ℕ) → send_hellos inst now ≡ after → Step inst after
    waits : {inst after : OspfInstance} (now : ℕ) → expire_waits inst now ≡ after → Step inst after
    responses :
        {inst after : OspfInstance} (rs : List Response)
        → send_responses inst rs ≡ after
        → Step inst after
    router_lsas :
        {inst after : OspfInstance} {ls : List (Ipv4Addr × Lsa)} (now : ℕ)
        → originate_router_lsas inst now ≡ ok (after, ls)
        → Step inst after
    -- An interface that had no index before is found in the dataplane.
    enrollment :
        {inst after : OspfInstance} (name : String) (sw_if_index : ℕ)
        (addr_mask : Option (Ipv4Addr × Ipv4Addr)) (mtu now : ℕ)
        → resolve_interface inst name sw_if_index addr_mask mtu now ≡ after
        → Step inst after

  pub data Reaches : OspfInstance → OspfInstance → Type 0 where
    here : {inst : OspfInstance} → Reaches inst inst
    onward : {i j k : OspfInstance} → Step i j → Reaches j k → Reaches i k

abbrev SoundMaintenance : OspfInstance × List Response × Bool → Type 0
SoundMaintenance p = IsSound p.0

abbrev SoundRoutes : OspfInstance × List SpfRoute → Type 0
SoundRoutes p = IsSound p.0

maintenance-Sound :
    (inst : OspfInstance) (now : ℕ)
    → IsSound inst
    → Ensures SoundMaintenance (periodic_maintenance inst now)
unfolding periodic_maintenance
maintenance-Sound inst now s =
    Ensures->>= Sound SoundMaintenance
      (if any_refresh_due inst.areas now then originate_router_lsas inst now else ok (inst, [])) _
      (elim (Bool-cases (any_refresh_due inst.areas now)) [
        | inl due ↦ rw due (originate_router_lsas-Sound inst now s)
        | inr none_due ↦ rw none_due s
      ])
      (λ r t. purge-IsSound r.0 now t)

run_spf-Sound :
    (inst : OspfInstance) (now : ℕ) → IsSound inst → Ensures SoundRoutes (run_spf inst now)
unfolding run_spf
run_spf-Sound inst now s =
    Ensures->>=_any SoundRoutes (spf_areas inst (area_ids inst) now) _ (λ routes.
      Ensures->>=_any SoundRoutes (spf_in inst unspecified now (get unspecified inst.areas)) _
        (λ b. record { neighbors = s.neighbors; areas = s.areas; external = s.external }))

module _ {Statement : Type 0} (matches : Statement → Ipv4Addr → ℕ → Bool)
    (permits : Statement → Bool) (route_maps : String → Option (List Statement)) where
  Step-IsSound :
      {inst after : OspfInstance}
      → Step matches permits route_maps inst after
      → IsSound inst
      → IsSound after
  unfolding check_neighbor_timers emit_pending_dds emit_pending_lsrs refresh_interface_state
      send_hellos expire_waits send_responses resolve_interface
  Step-IsSound (packet {inst} {after} {rs} sw src p now e) s =
      ensured SoundAfter (process_packet inst sw src p now) (after, rs) e
        (process_packet-IsSound inst sw src p now s)
  Step-IsSound (timers {inst} now e) s = subst IsSound e (
      with_interfaces-IsSound inst (check_interfaces inst.interfaces now)
        (check_interfaces-All inst.interfaces now s.neighbors) s)
  Step-IsSound (descriptions {inst} elapsed now e) s = subst IsSound e (
      with_interfaces-IsSound inst (pending_dds inst.router_id inst.interfaces elapsed now).0
        (pending_dds-All inst.router_id inst.interfaces elapsed now s.neighbors) s)
  Step-IsSound (requests {inst} now e) s = subst IsSound e (
      with_interfaces-IsSound inst (pending_lsrs inst.router_id inst.interfaces now).0
        (pending_lsrs-All inst.router_id inst.interfaces now s.neighbors) s)
  Step-IsSound (refresh {inst} sw addr mask up now e) s = subst IsSound e (
      with_interfaces-IsSound inst (refresh_in inst.interfaces sw addr mask up now).0
        (refresh_in-All inst.interfaces sw addr mask up now s.neighbors) s)
  Step-IsSound (maintenance {inst} {after} {rs} {changed} now e) s =
      ensured SoundMaintenance (periodic_maintenance inst now) (after, rs, changed) e
        (maintenance-Sound inst now s)
  Step-IsSound (externals {inst} {after} {ls} redistribute prefixes summaries now e) s =
      ensured SoundExternals
        (originate_external_lsas matches permits route_maps inst redistribute prefixes summaries
          now)
        (after, ls) e
        (originate_external_lsas-Sound matches permits inst now s prefixes summaries route_maps
          redistribute)
  Step-IsSound (schedule {inst} now e) s = subst IsSound e (schedule_spf-IsSound inst now s)
  Step-IsSound (calculation {inst} {after} {routes} now e) s =
      ensured SoundRoutes (run_spf inst now) (after, routes) e (run_spf-Sound inst now s)
  Step-IsSound (hellos {inst} now e) s = subst IsSound e (
      with_interfaces-IsSound inst (map (hello_sent now) inst.interfaces)
        (map-All (hello_sent now) (hello_sent-Values now) inst.interfaces s.neighbors) s)
  Step-IsSound (waits {inst} now e) s = subst IsSound e (
      with_interfaces-IsSound inst (map (waited now) inst.interfaces)
        (map-All (waited now) (waited-Values now) inst.interfaces s.neighbors) s)
  Step-IsSound (responses {inst} rs e) s = subst IsSound e (
      with_interfaces-IsSound inst (send_each rs inst.interfaces)
        (send_each-All rs inst.interfaces s.neighbors) s)
  Step-IsSound (router_lsas {inst} {after} {ls} now e) s =
      ensured Sound (originate_router_lsas inst now) (after, ls) e
        (originate_router_lsas-Sound inst now s)
  Step-IsSound (enrollment {inst} name sw addr_mask mtu now e) s = subst IsSound e (
      with_interfaces-IsSound inst (resolve_in inst.interfaces name sw addr_mask mtu now)
        (resolve_in-All inst.interfaces name sw addr_mask mtu now s.neighbors) s)

  -- An instance is sound if below ExStart no neighbor holds requests, retransmissions or summaries,
  -- and each database has its LSAs under their keys, once and with their origin noted. A sound
  -- instance stays sound whatever calls of the daemon's loop it goes through, in any order and at any
  -- times: packets, Hellos and responses that are sent, Wait timers that run out, neighbors that fall
  -- silent, what is sent again, interfaces that change or are resolved, Router-LSAs and external LSAs
  -- that are originated, the periodic maintenance, and calculations that are scheduled and run. A reload
  -- of the configuration is no such call.
  pub reaches-IsSound :
      {inst after : OspfInstance}
      → Reaches matches permits route_maps inst after
      → IsSound inst
      → IsSound after
  reaches-IsSound here s = s
  reaches-IsSound (onward step rest) s = reaches-IsSound rest (Step-IsSound step s)
