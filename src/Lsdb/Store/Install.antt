-- ===== src/Lsdb/Store/Install.antt =====
-- What the database's operations do to what is found in it, and what they keep.
use Prim.Native.Nat.{Ordering}
use ospfd.Common.{ℕ, ◌≡◌, refl, arith, ◌&&◌, Option, none, some, ◌==◌, if◌then◌else◌}
use ospfd.Packet.Lsa.Header.{LsaKey}
use ospfd.Packet.Lsa.Header.Recency.{is_more_recent_than}
use ospfd.Packet.Lsa.Codec.{Lsa, key}
use ospfd.Lsdb.Entries.{key_eq, lookup, keys_where}
use ospfd.Lsdb.Entries.Laws.{
  key_eq→eq, lookup-insert, Distinct, insert-Distinct, remove_all-Distinct,
}
use ospfd.Lsdb.Store.Age.{get-flush_max_age}
use ospfd.Lsdb.Store.{
  LsdbEntry, Lsdb, InstallResult, new, updated, duplicate, older, changed, fresh_entry, get,
  install_over, install_at, install, flush_max_age, is_max_age,
}

-- What the result of `install` says, by the entry found before.
abbrev pub verdict : Lsa → Option LsdbEntry → InstallResult
verdict l none = new
verdict l (some e) = elim (is_more_recent_than l.header e.lsa.header) [
  | Ordering.gt ↦ updated
  | Ordering.eq ↦ duplicate
  | Ordering.lt ↦ older
]

-- `install` answers `new` for an unknown key, and otherwise by comparing the LSA with the one
-- that is there; and if it answers `new` or `updated`, exactly the LSA's own key then gives the
-- fresh entry, and otherwise nothing changes.
pub get-install :
    (db : Lsdb) (l : Lsa) (now : ℕ) (j : LsaKey)
    → ((install db l now).1 ≡ verdict l (get db (key l)))
      × (get (install db l now).0 j ≡ (
          if changed (install db l now).1 && key_eq (key l) j
          then some (fresh_entry db l now)
          else get db j))
unfolding install get
get-install db l now j = ground (arith, lookup-insert (key l) j (fresh_entry db l now) db.entries)

-- Each entry stands under the key of its LSA, once, with its origin noted.
pub record IsValid (db : Lsdb) : Type 0 where
  pub distinct : Distinct db.entries
  pub keyed : (k : LsaKey) (e : LsdbEntry) → get db k ≡ some e → key e.lsa ≡ k
  pub origin :
      (k : LsaKey) (e : LsdbEntry)
      → get db k ≡ some e
      → e.self_originated ≡ (e.lsa.header.advertising_router == db.router_id)

module _ (db : Lsdb) (l : Lsa) (now : ℕ) (v : IsValid db) where
  install_over-Distinct : (r : Ordering) → Distinct (install_over db l now r).0.entries
  install_over-Distinct Ordering.gt =
      insert-Distinct (key l) (fresh_entry db l now) db.entries v.distinct
  install_over-Distinct Ordering.eq = v.distinct
  install_over-Distinct Ordering.lt = v.distinct

  install_at-Distinct : (o : Option LsdbEntry) → Distinct (install_at db l now o).0.entries
  install_at-Distinct none = insert-Distinct (key l) (fresh_entry db l now) db.entries v.distinct
  install_at-Distinct (some e) = install_over-Distinct (is_more_recent_than l.header e.lsa.header)

  install-Distinct : Distinct (install db l now).0.entries
  unfolding install
  install-Distinct = install_at-Distinct (lookup (key l) db.entries)

  install_keyed : (k : LsaKey) (e : LsdbEntry) → get (install db l now).0 k ≡ some e → key e.lsa ≡ k
  install_keyed k e h = ground (arith, get-install db l now k, v.keyed k e, key_eq→eq (key l) k)

  install_router_id : (install db l now).0.router_id ≡ db.router_id
  unfolding install
  install_router_id = ground arith

  install_origin :
      (k : LsaKey) (e : LsdbEntry)
      → get (install db l now).0 k ≡ some e
      → e.self_originated ≡ (e.lsa.header.advertising_router == (install db l now).0.router_id)
  install_origin k e h = rw install_router_id (ground (arith, get-install db l now k, v.origin k e))

  -- Installing any LSA in a valid database leaves it valid.
  pub install-IsValid : IsValid (install db l now).0
  install-IsValid = record {
    distinct = install-Distinct;
    keyed = install_keyed;
    origin = install_origin;
  }

module _ (db : Lsdb) (now : ℕ) (v : IsValid db) where
  flush-Distinct : Distinct (flush_max_age db now).0.entries
  unfolding flush_max_age
  flush-Distinct =
      remove_all-Distinct (keys_where (is_max_age now) db.entries) db.entries v.distinct

  flush_router_id : (flush_max_age db now).0.router_id ≡ db.router_id
  unfolding flush_max_age
  flush_router_id = refl

  flush_get :
      (k : LsaKey) (e : LsdbEntry) → get (flush_max_age db now).0 k ≡ some e → get db k ≡ some e
  flush_get k e h = ground (arith, (get-flush_max_age db now k v.distinct).0)

  flush_origin :
      (k : LsaKey) (e : LsdbEntry)
      → get (flush_max_age db now).0 k ≡ some e
      → e.self_originated ≡ (e.lsa.header.advertising_router == (flush_max_age db now).0.router_id)
  flush_origin k e h = rw flush_router_id (v.origin k e (flush_get k e h))

  -- Flushing what has reached MaxAge leaves a valid database valid.
  pub flush_max_age-IsValid : IsValid (flush_max_age db now).0
  flush_max_age-IsValid = record {
    distinct = flush-Distinct;
    keyed = λ k e h. v.keyed k e (flush_get k e h);
    origin = flush_origin;
  }
