-- ===== src/Lsdb/Store/Age.antt =====
-- The age of an entry, and what is flushed for it.
use ospfd.Common.{
  ℕ, ◌+◌, ◌-◌, ◌*◌, ◌/◌, ◌≤◌, ◌<◌, ◌≡◌, arith, min, Bool, false, Option, none, some, if◌then◌else◌,
}
use ospfd.Packet.Lsa.Header.{LsaKey, max_age}
use ospfd.Lsdb.Entries.{keys_where, contains}
use ospfd.Lsdb.Entries.Laws.{lookup-remove_all, contains-keys_where, Distinct}
use ospfd.Lsdb.Store.{LsdbEntry, Lsdb, current_age, is_max_age, flush_max_age, get}

-- Up to 65535 seconds after an entry was installed, its age is the age that its LSA came with
-- plus the whole seconds since, and no more than MaxAge; so it does not fall in that time.
pub current_age_lem :
    (e : LsdbEntry) (now later : ℕ)
    → e.installed_at ≤ now
    → now ≤ later
    → later < e.installed_at + 65536 * 1000000000
    → (current_age e now ≡ min (e.lsa.header.ls_age + (now - e.installed_at) / 1000000000) max_age)
      × (current_age e now ≤ current_age e later)
unfolding current_age
current_age_lem e now later a b c = ground arith

-- The seconds are cut to 16 bits before they are added, so that 65536 seconds later any entry
-- has the same age again.
pub current_age_repeats :
    (e : LsdbEntry) (now : ℕ)
    → e.installed_at ≤ now
    → current_age e (now + 65536 * 1000000000) ≡ current_age e now
unfolding current_age
current_age_repeats e now h = ground arith

-- Whether an entry is there that has reached MaxAge.
abbrev pub expired : ℕ → Option LsdbEntry → Bool
expired now none = false
expired now (some e) = is_max_age now e

-- Flushing removes exactly the entries that have reached MaxAge, keeps the others, and returns
-- the keys removed.
pub get-flush_max_age :
    (db : Lsdb) (now : ℕ) (k : LsaKey)
    → Distinct db.entries
    → (get (flush_max_age db now).0 k ≡ (if expired now (get db k) then none else get db k))
      × (contains k (flush_max_age db now).1 ≡ expired now (get db k))
unfolding flush_max_age get
get-flush_max_age db now k d = ground (
  arith,
  lookup-remove_all (keys_where (is_max_age now) db.entries) k db.entries,
  contains-keys_where (is_max_age now) k db.entries d,
)
