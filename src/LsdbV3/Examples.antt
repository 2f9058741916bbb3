-- ===== src/LsdbV3/Examples.antt =====
-- The database of version 3 at one LSA.
use ospfd.Common.{◌≡◌, arith, some, [], ◌∷◌, if◌then◌else◌}
use mathlib.Core.Logic.{◌↔◌}
use ospfd.PacketV3.Lsa.{LsaV3Type}
use ospfd.LsdbV3.{LsaKeyV3, LsaEntryV3, LsdbV3, key_v3_eq, key_of, insert, get_v3}
use ospfd.LsdbV3.Laws.{Held, insert_lem}

abbrev entry : LsaEntryV3
entry = record {
  header = record {
    ls_age = 0;
    ls_type = LsaV3Type.intra_area_prefix;
    link_state_id = 5;
    advertising_router = 9;
    ls_sequence_number = 0x80000001;
    ls_checksum = 0x1111;
    length = 24;
  };
  raw = [];
  area = some 0;
}

abbrev db : LsdbV3
db = record { entries = (key_of entry, entry) ∷ []; generation = 1 }

insert_lem_example :
    ((j : LsaKeyV3)
      → get_v3 (insert db entry) j
        ≡ (if key_v3_eq (key_of entry) j then some entry else get_v3 db j))
    × (((insert db entry).generation ≡ db.generation) ↔ Held db entry)
insert_lem_example = insert_lem db entry (omega arith)
