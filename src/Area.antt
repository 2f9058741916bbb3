-- ===== src/Area.antt =====
-- An area with its database (src/area.rs).
use ospfd.Common.{ℕ, Bool, true, false, ◌==◌, Ipv4Addr, unspecified}
use ospfd.Lsdb.Store.{Lsdb, new_lsdb}

pub data AreaType : Type 0 where
  normal stub nssa : AreaType

pub record Area : Type 0 where
  pub area_id : Ipv4Addr
  pub area_type : AreaType
  pub default_cost : ℕ
  pub lsdb : Lsdb

abbrev pub new_area : Ipv4Addr → AreaType → Ipv4Addr → Area
new_area area_id area_type router_id = record {
  area_id = area_id;
  area_type = area_type;
  default_cost = 1;
  lsdb = new_lsdb router_id;
}

abbrev pub is_backbone : Area → Bool
is_backbone a = a.area_id == unspecified

abbrev pub accepts_as_external : Area → Bool
accepts_as_external a = elim (a.area_type) [ normal ↦ true | stub ↦ false | nssa ↦ false ]
