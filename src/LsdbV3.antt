-- ===== src/LsdbV3.antt =====
-- The link-state database of OSPFv3 (src/lsdb_v3.rs). The HashMap is an association list; an i32
-- sequence number is its 32-bit pattern.
pub mod Laws
mod Examples
use ospfd.Common.{
  ℕ, suc, ◌+◌, ◌%◌, ◌^◌, Bool, true, false, not, ◌&&◌, ◌||◌, Option, none, some, List, [], ◌∷◌,
  length, map, ◌==◌, if◌then◌else◌, Ipv4Addr,
}
use ospfd.PacketV3.Lsa.{LsaV3Type, LsaV3Header, to_u16}

pub record LsaKeyV3 : Type 0 where
  pub area : Option Ipv4Addr
  pub ls_type : LsaV3Type
  pub link_state_id : Ipv4Addr
  pub advertising_router : Ipv4Addr

pub record LsaEntryV3 : Type 0 where
  pub header : LsaV3Header
  pub raw : List ℕ
  pub area : Option Ipv4Addr

pub record LsdbV3 : Type 0 where
  pub entries : List (LsaKeyV3 × LsaEntryV3)
  pub generation : ℕ

abbrev pub area_eq : Option Ipv4Addr → Option Ipv4Addr → Bool
area_eq none none = true
area_eq (some a) (some b) = a == b
area_eq _ _ = false

abbrev pub key_v3_eq : LsaKeyV3 → LsaKeyV3 → Bool
key_v3_eq a b =
    area_eq a.area b.area
    && to_u16 a.ls_type == to_u16 b.ls_type
    && a.link_state_id == b.link_state_id
    && a.advertising_router == b.advertising_router

unfoldable pub find_v3 : LsaKeyV3 → List (LsaKeyV3 × LsaEntryV3) → Option LsaEntryV3
find_v3 k [] = none
find_v3 k ((j, e) ∷ m) = if key_v3_eq j k then some e else find_v3 k m

-- `HashMap::insert`
unfoldable pub put_v3 :
    LsaKeyV3 → LsaEntryV3 → List (LsaKeyV3 × LsaEntryV3) → List (LsaKeyV3 × LsaEntryV3)
put_v3 k e [] = (k, e) ∷ []
put_v3 k e ((j, f) ∷ m) =
    let rest = put_v3 k e m in if key_v3_eq j k then (j, e) ∷ m else (j, f) ∷ rest

abbrev pub new_lsdb_v3 : LsdbV3
new_lsdb_v3 = record { entries = []; generation = 0 }

abbrev pub key_of : LsaEntryV3 → LsaKeyV3
key_of e = record {
  area = e.area;
  ls_type = e.header.ls_type;
  link_state_id = e.header.link_state_id;
  advertising_router = e.header.advertising_router;
}

abbrev pub content_changed : LsaEntryV3 → Option LsaEntryV3 → Bool
content_changed e none = true
content_changed e (some existing) =
    not (existing.header.ls_sequence_number == e.header.ls_sequence_number)
    || not (existing.header.ls_checksum == e.header.ls_checksum)

unfoldable pub insert : LsdbV3 → LsaEntryV3 → LsdbV3
insert db e = record {
  entries = put_v3 (key_of e) e db.entries;
  generation =
      if content_changed e (find_v3 (key_of e) db.entries)
      then (db.generation + 1) % 2 ^ 64
      else db.generation;
}

abbrev pub get_v3 : LsdbV3 → LsaKeyV3 → Option LsaEntryV3
get_v3 db k = find_v3 k db.entries

abbrev pub len_v3 : LsdbV3 → ℕ
len_v3 db = length db.entries

abbrev header_v3 : LsaKeyV3 × LsaEntryV3 → LsaV3Header
header_v3 (k, e) = e.header

abbrev pub headers : LsdbV3 → List LsaV3Header
headers db = map header_v3 db.entries
