-- ===== src/Lsdb/Store/Live.antt =====
-- The snapshot of live LSAs that routes are computed from.
use ospfd.Common.{ℕ, ◌≡◌, refl, arith, true, Option, none, some, List, [], ◌∷◌, if◌then◌else◌}
use ospfd.Packet.Lsa.Header.{LsaKey}
use ospfd.Packet.Lsa.Codec.{Lsa}
use ospfd.Lsdb.Entries.{key_eq, lookup}
use ospfd.Lsdb.Entries.Laws.{key_eq→eq, Distinct, cons}
use ospfd.Lsdb.Store.{LsdbEntry, Lsdb, get, is_max_age, aged, live_lsas, as_lsa_map}

-- What the snapshot has for an entry: none if it is at MaxAge, and its LSA with the age of now.
abbrev pub snapshot : ℕ → Option LsdbEntry → Option Lsa
snapshot now none = none
snapshot now (some e) = if is_max_age now e then none else some (aged e now)

absent_key :
    (i k : LsaKey) (m : List (LsaKey × LsdbEntry))
    → lookup i m ≡ none
    → key_eq i k ≡ true
    → lookup k m ≡ none
absent_key i k m h e = rw (← key_eq→eq i k e) h

lookup-live_lsas :
    (now : ℕ) (k : LsaKey) (m : List (LsaKey × LsdbEntry))
    → Distinct m
    → lookup k (live_lsas now m) ≡ snapshot now (lookup k m)
unfolding live_lsas lookup
lookup-live_lsas now k [] d = refl
lookup-live_lsas now k ((i, e) ∷ m) (cons fresh d) =
    ground (arith, lookup-live_lsas now k m d, absent_key i k m fresh)

-- Where each key occurs once, the snapshot has exactly the LSAs that have not reached MaxAge, with
-- their ages of now.
pub lookup-as_lsa_map :
    (db : Lsdb) (now : ℕ) (k : LsaKey)
    → Distinct db.entries
    → lookup k (as_lsa_map db now) ≡ snapshot now (get db k)
unfolding as_lsa_map get
lookup-as_lsa_map db now k d = lookup-live_lsas now k db.entries d
