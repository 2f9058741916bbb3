-- ===== src/Instance/State.antt =====
-- The state of the instance and what every handler uses of it (src/instance.rs). The fields
-- `vrf_name`, `rib`, `summary_addresses` and `route_maps` are left out: no handler here reads them.
use Prim.Native.String.{String}
use ospfd.Common.{
  ℕ, zero, suc, Bool, ◌&&◌, Option, none, some, List, [], ◌∷◌, map, length, leb, ◌==◌,
  if◌then◌else◌, Ipv4Addr, unspecified,
}
use ospfd.Packet.Codec.{OspfPacket}
use ospfd.Interface.Machine.{OspfInterface}
use ospfd.Area.{Area}
use ospfd.Lsdb.Store.{Lsdb}
use ospfd.Spf.Table.{get, contains}

pub data RedistributeSource : Type 0 where
  connected static bgp kernel : RedistributeSource

pub record RedistributeConfig : Type 0 where
  pub source : RedistributeSource
  pub metric : ℕ
  pub metric_type : ℕ
  pub route_map : Option String

-- An Instant is a number of nanoseconds. `areas` is the HashMap as the list of its entries.
pub record OspfInstance : Type 0 where
  pub router_id : Ipv4Addr
  pub areas : List (Ipv4Addr × Area)
  pub as_external_lsdb : Lsdb
  pub redistribute : List RedistributeConfig
  pub interfaces : List OspfInterface
  pub spf_scheduled : Option ℕ
  pub spf_last_run : Option ℕ
  pub spf_hold_multiplier : ℕ
  pub spf_delay_ms : ℕ
  pub spf_holdtime_ms : ℕ
  pub spf_max_holdtime_ms : ℕ

-- The interface to send on, the destination and the packet.
abbrev pub Response : Type 0
Response = ℕ × Ipv4Addr × OspfPacket

unfoldable pub lsdb : OspfInstance → Ipv4Addr → Option Lsdb
lsdb inst area_id = elim (get area_id inst.areas) [ none ↦ none | some a ↦ some a.lsdb ]

-- `collect` into a HashSet.
unfoldable pub distinct : List Ipv4Addr → List Ipv4Addr
distinct [] = []
distinct (x ∷ xs) = let rest = distinct xs in if contains x rest then rest else x ∷ rest

abbrev pub area_of : OspfInterface → Ipv4Addr
area_of i = i.area_id

unfoldable pub is_abr : OspfInstance → Bool
is_abr inst =
    let areas = distinct (map area_of inst.interfaces) in
    leb 2 (length areas) && contains unspecified areas

module _ {A : Type 0} where
  abbrev pub get_elem? : List A → ℕ → Option A
  get_elem? [] n = none
  get_elem? (x ∷ xs) zero = some x
  get_elem? (x ∷ xs) (suc n) = get_elem? xs n

  -- The index of the first that passes the test, counted from `n`.
  abbrev pub position_from : ℕ → (A → Bool) → List A → Option ℕ
  position_from n p [] = none
  position_from n p (x ∷ xs) = if p x then some n else position_from (suc n) p xs

unfoldable pub find_interface : OspfInstance → ℕ → Option ℕ
find_interface inst sw_if_index =
    position_from 0 (λ (i : OspfInterface). i.sw_if_index == sw_if_index) inst.interfaces
