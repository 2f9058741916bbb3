-- ===== src/Interface/Machine/Roles.antt =====
-- The interface's state agrees with the DR and BDR that it stores, after every event.
use ospfd.Common.{ℕ, ◌≡◌, ◌≢◌, arith, Bool, true, false, none, unspecified}
use ospfd.Interface.Machine.{
  InterfaceState, InterfaceEvent, OspfInterface, waiting, dr_other, backup, dr, run_dr_election,
  reevaluate_adjacencies, react, handle_event,
}

abbrev pub has_role : InterfaceState → Bool
has_role dr_other = true
has_role backup = true
has_role dr = true
has_role _ = false

-- The state is that of our role among the stored DR and BDR; where there is no election, neither
-- is stored; and the wait timer runs exactly in Waiting.
pub record AgreesWithRole (i : OspfInterface) : Type 0 where
  pub as_dr : i.state ≡ dr → i.dr ≡ i.address
  pub as_backup : i.state ≡ backup → (i.bdr ≡ i.address) × (i.dr ≢ i.address)
  pub as_other : i.state ≡ dr_other → (i.bdr ≢ i.address) × (i.dr ≢ i.address)
  pub no_election : has_role i.state ≡ false → (i.dr ≡ unspecified) × (i.bdr ≡ unspecified)
  pub timer_runs : i.state ≡ waiting → i.wait_timer_expiry ≢ none
  pub timer_rests : i.state ≢ waiting → i.wait_timer_expiry ≡ none

-- Any event keeps the state in agreement with the stored DR, BDR and wait timer, for an interface whose
-- address is not 0.0.0.0, and keeps the address.
pub handle_event-AgreesWithRole :
    (i : OspfInterface) (e : InterfaceEvent) (now : ℕ)
    → i.address ≢ unspecified
    → AgreesWithRole i
    → (AgreesWithRole (handle_event i e now).0) × ((handle_event i e now).0.address ≡ i.address)
unfolding handle_event react run_dr_election reevaluate_adjacencies
handle_event-AgreesWithRole i e now a v = ground arith
