-- ===== src/Lsdb/Examples.antt =====
-- The link-state database at concrete inputs.
use ospfd.Common.{
  ◌+◌, ◌*◌, ◌≡◌, arith, true, ◌&&◌, some, [], if◌then◌else◌, ◌≢◌, ◌∷◌, length, refl, List,
}
use ospfd.Packet.Lsa.Header.{LsaHeader, network, LsaType}
use ospfd.Packet.Lsa.Body.{LsaBody, RouterLink, stub_network}
use ospfd.Packet.Lsa.Codec.{Lsa, key}
use ospfd.Lsdb.Entries.{key_eq, lookup}
use ospfd.Lsdb.Entries.Laws.{Distinct}
use ospfd.Lsdb.Store.{
  LsdbEntry, Lsdb, new_lsdb, get, install, changed, fresh_entry, current_age, router_key, older,
}
use ospfd.Lsdb.Store.Install.{verdict, get-install, IsValid, install-IsValid}
use ospfd.Packet.Lsa.Header.Recency.{is_more_recent_than}
use ospfd.Packet.Lsa.Codec.RoundTrip.{finished}
use ospfd.Lsdb.Store.Newest.{install-not_older}
use ospfd.Lsdb.Store.Originate.{draft, originated_wraps}
use Prim.Native.Nat.{Ordering}
use ospfd.Lsdb.Store.Age.{current_age_repeats}

abbrev net_header : LsaHeader
net_header = record {
  ls_age = 3590;
  options = 2;
  ls_type = network;
  link_state_id = 0x0A000001;
  advertising_router = 0x01010101;
  ls_sequence_number = 0x80000001;
  ls_checksum = 77;
  length = 24;
}

abbrev net_lsa : Lsa
net_lsa = record {
  header = net_header;
  body = LsaBody.network (record { network_mask = 0xFFFFFF00; attached_routers = [] });
}

abbrev next_lsa : Lsa
next_lsa = record net_lsa { header = record net_header { ls_sequence_number = 0x80000002 } }

abbrev empty : Lsdb
empty = new_lsdb 0x01010101

abbrev entry : LsdbEntry
entry = record { lsa = net_lsa; installed_at = 5; self_originated = true }

empty-IsValid : IsValid empty
unfolding new_lsdb get lookup
empty-IsValid = record {
  distinct = Distinct.nil;
  keyed = λ k e h. ground arith;
  origin = λ k e h. ground arith;
}

abbrev one : Lsdb
one = (install empty net_lsa 5).0

one-IsValid : IsValid one
one-IsValid = install-IsValid empty net_lsa 5 empty-IsValid

get-install_example :
    ((install one next_lsa 9).1 ≡ verdict next_lsa (get one (key next_lsa)))
    × (get (install one next_lsa 9).0 (key net_lsa) ≡ (
        if changed (install one next_lsa 9).1 && key_eq (key next_lsa) (key net_lsa)
        then some (fresh_entry one next_lsa 9)
        else get one (key net_lsa)))
get-install_example = get-install one next_lsa 9 (key net_lsa)

current_age_repeats_example :
    current_age entry (4000000005 + 65536 * 1000000000) ≡ current_age entry 4000000005
current_age_repeats_example = current_age_repeats entry 4000000005 (omega arith)

abbrev holding : Lsdb
holding = record { entries = (key net_lsa, entry) ∷ []; router_id = 0x01010101 }

holding_found : get holding (key net_lsa) ≡ some entry
unfolding get lookup key_eq
holding_found = refl

install-not_older_example :
    (f : LsdbEntry) × (get (install holding next_lsa 9).0 (key net_lsa) ≡ some f)
    × (is_more_recent_than entry.lsa.header f.lsa.header ≢ Ordering.gt)
install-not_older_example = install-not_older holding next_lsa 9 (key net_lsa) entry holding_found

abbrev links : List RouterLink
links =
    record {
      link_id = 0x0A000000;
      link_data = 0xFFFFFF00;
      link_type = stub_network;
      num_tos = 0;
      metric = 10;
    }
    ∷ []

abbrev last_entry : LsdbEntry
last_entry = record {
  lsa = record {
    header = record net_header {
      ls_type = LsaType.router;
      link_state_id = 0x01010101;
      ls_sequence_number = 0x7FFFFFFF;
    };
    body = LsaBody.router (record { flags = 1; links = links });
  };
  installed_at = 5;
  self_originated = true;
}

abbrev at_last : Lsdb
at_last = record { entries = (router_key 0x01010101, last_entry) ∷ []; router_id = 0x01010101 }

last_found : get at_last (router_key 0x01010101) ≡ some last_entry
unfolding get lookup key_eq
last_found = refl

originated_wraps_example :
    install at_last (finished (draft at_last 0x01010101 1 links 2)) 9 ≡ (at_last, older)
originated_wraps_example =
    originated_wraps at_last 0x01010101 1 links 2 9 last_entry last_found refl
