-- ===== src/Lsdb/Store/Bump.antt =====
-- `bump_seq` keeps a database valid.
use ospfd.Common.{
  ℕ, ◌≡◌, refl, arith, ◌&&◌, Option, none, some, ltb, ◌==◌, if◌then◌else◌, Bool-cases, inl, inr,
}
use ospfd.Packet.Lsa.Header.{LsaKey}
use ospfd.Packet.Lsa.Header.Recency.{signed_rank}
use ospfd.Packet.Lsa.Codec.{key}
use ospfd.Lsdb.Entries.{key_eq, lookup}
use ospfd.Lsdb.Entries.Laws.{key_eq→eq, lookup-insert, Distinct, insert-Distinct}
use ospfd.Lsdb.Store.{Lsdb, LsdbEntry, get, bump_seq, bump_at, with_seq}
use ospfd.Lsdb.Store.Install.{IsValid}

get-bump_at :
    (db : Lsdb) (k : LsaKey) (seq : ℕ) (e : LsdbEntry) (j : LsaKey)
    → get (bump_at db k seq (some e)).0 j
      ≡ (if (bump_at db k seq (some e)).1 && key_eq k j then some (with_seq e seq) else get db j)
unfolding get
get-bump_at db k seq e j = ground (arith, lookup-insert k j (with_seq e seq) db.entries)

module _ (db : Lsdb) (k : LsaKey) (seq : ℕ) (v : IsValid db) (e : LsdbEntry)
    (found : get db k ≡ some e) where
  bump_keyed :
      (j : LsaKey) (f : LsdbEntry) → get (bump_at db k seq (some e)).0 j ≡ some f → key f.lsa ≡ j
  bump_keyed j f h =
      ground (arith, get-bump_at db k seq e j, v.keyed j f, v.keyed k e found, key_eq→eq k j)

  bump_router_id : (bump_at db k seq (some e)).0.router_id ≡ db.router_id
  bump_router_id = ground arith

  bump_origin :
      (j : LsaKey) (f : LsdbEntry)
      → get (bump_at db k seq (some e)).0 j ≡ some f
      → f.self_originated
        ≡ (f.lsa.header.advertising_router == (bump_at db k seq (some e)).0.router_id)
  bump_origin j f h =
      rw bump_router_id (ground (arith, get-bump_at db k seq e j, v.origin j f, v.origin k e found))

  bump-Distinct : Distinct (bump_at db k seq (some e)).0.entries
  bump-Distinct =
      elim (Bool-cases (ltb (signed_rank e.lsa.header.ls_sequence_number) (signed_rank seq))) [
        | inl newer ↦ rw newer (insert-Distinct k (with_seq e seq) db.entries v.distinct)
        | inr older ↦ rw older (v.distinct)
      ]

-- Bumping a sequence number leaves a valid database valid.
pub bump_seq-IsValid :
    (db : Lsdb) (k : LsaKey) (seq : ℕ) → IsValid db → IsValid (bump_seq db k seq).0
unfolding bump_seq get
bump_seq-IsValid db k seq v = by_found (lookup k db.entries) refl
  where
    by_found : (o : Option LsdbEntry) → lookup k db.entries ≡ o → IsValid (bump_at db k seq o).0
    by_found none h = v
    by_found (some e) h = record {
      distinct = bump-Distinct db k seq v e h;
      keyed = bump_keyed db k seq v e h;
      origin = bump_origin db k seq v e h;
    }
