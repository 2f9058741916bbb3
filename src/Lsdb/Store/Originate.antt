-- ===== src/Lsdb/Store/Originate.antt =====
-- Originating our Router-LSA: the LSA is built, encoded, read back and installed.
use Prim.Native.Nat.{Ordering}
use ospfd.Common.{
  ◌%◌, ◌^◌, ℕ, ◌+◌, ◌≡◌, ◌≢◌, refl, ap, arith, true, Option, none, some, List, Ipv4Addr, IsU32,
}
use ospfd.Packet.Lsa.Header.{LsaKey, router}
use ospfd.Packet.Lsa.Header.Recency.{is_more_recent_than}
use ospfd.Packet.Lsa.Body.{RouterLink}
use ospfd.Packet.Lsa.Header
use ospfd.Packet.Lsa.Codec
use ospfd.Packet.Lsa.Codec.{Lsa, key}
use ospfd.Packet.Lsa.Codec.RoundTrip.{finished}
use ospfd.Lsdb.Entries.Laws.{key_eq_refl}
use ospfd.Lsdb.Store.{
  LsdbEntry, Lsdb, get, install, changed, fresh_entry, next_seq, router_key, router_lsa, older,
}
use ospfd.Lsdb.Store.Install.{verdict, get-install}

-- The Router-LSA that is encoded, with the next sequence number.
abbrev pub draft : Lsdb → Ipv4Addr → ℕ → List RouterLink → ℕ → Lsa
draft db rid flags links options =
    router_lsa rid flags links options (next_seq (get db (router_key rid)))

-- No entry, or one whose sequence number has a successor.
abbrev pub IsNewer : Option LsdbEntry → Type 0
IsNewer none = Unit {0}
IsNewer (some e) =
    IsU32 e.lsa.header.ls_sequence_number × (e.lsa.header.ls_sequence_number ≢ 0x7FFFFFFF)

-- The sequence number is the first one, 0x80000001, or one more than that of the entry; the bits
-- of an i32 are turned into a number of the same order by adding 2^31.
abbrev pub Follows : Option LsdbEntry → ℕ → Type 0
Follows none seq = seq ≡ 0x80000001
Follows (some e) seq =
    IsU32 seq × ((seq + 2 ^ 31) % 2 ^ 32 ≡ (e.lsa.header.ls_sequence_number + 2 ^ 31) % 2 ^ 32 + 1)

verdict_newer :
    (l : Lsa) (o : Option LsdbEntry)
    → l.header.ls_sequence_number ≡ next_seq o
    → IsNewer o
    → changed (verdict l o) ≡ true
unfolding is_more_recent_than
verdict_newer l none h n = refl
verdict_newer l (some e) h (u, n) = ground arith

verdict_wrapped :
    (l : Lsa) (e : LsdbEntry)
    → l.header.ls_sequence_number ≡ next_seq (some e)
    → e.lsa.header.ls_sequence_number ≡ 0x7FFFFFFF
    → is_more_recent_than l.header e.lsa.header ≡ Ordering.lt
unfolding is_more_recent_than
verdict_wrapped l e h n = ground arith

stored_if_newer :
    (db : Lsdb) (l : Lsa) (now : ℕ)
    → changed (verdict l (get db (key l))) ≡ true
    → get (install db l now).0 (key l) ≡ some (fresh_entry db l now)
stored_if_newer db l now h = ground (arith, get-install db l now (key l), key_eq_refl (key l))

-- If there is no Router-LSA of ours, or one with a sequence number below the largest, 0x7FFFFFFF,
-- the one that is originated is found under our key afterwards.
pub get-originated :
    (db : Lsdb) (rid : Ipv4Addr) (flags : ℕ) (links : List RouterLink) (options now : ℕ)
    → IsNewer (get db (router_key rid))
    → get (install db (finished (draft db rid flags links options)) now).0 (router_key rid)
      ≡ some (fresh_entry db (finished (draft db rid flags links options)) now)
unfolding router_lsa
get-originated db rid flags links options now n =
    stored_if_newer db (finished (draft db rid flags links options)) now
      (verdict_newer (finished (draft db rid flags links options)) (get db (router_key rid)) refl n)

-- If ours has the largest sequence number, 0x7FFFFFFF, the database rejects the LSA that is
-- originated next as older than the one that it has, and stays as it is.
pub originated_wraps :
    (db : Lsdb) (rid : Ipv4Addr) (flags : ℕ) (links : List RouterLink) (options now : ℕ)
    (e : LsdbEntry)
    → get db (router_key rid) ≡ some e
    → e.lsa.header.ls_sequence_number ≡ 0x7FFFFFFF
    → install db (finished (draft db rid flags links options)) now ≡ (db, older)
unfolding router_lsa install get
originated_wraps db rid flags links options now e h n =
    let l = finished (draft db rid flags links options) in
    ground (arith, verdict_wrapped l e (ap next_seq h) n)
