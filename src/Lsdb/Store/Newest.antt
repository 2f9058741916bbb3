-- ===== src/Lsdb/Store/Newest.antt =====
-- `install` keeps the most recent instance of an LSA.
use Prim.Native.Nat.{Ordering}
use ospfd.Common.{
  ℕ, ◌≡◌, ◌≢◌, refl, arith, Bool, true, false, ◌&&◌, Option, none, some, Bool-cases, inl, inr,
}
use ospfd.Packet.Lsa.Header.{LsaKey, LsaHeader}
use ospfd.Packet.Lsa.Header.Recency.{is_more_recent_than, flip, recency-flip}
use ospfd.Packet.Lsa.Codec.{Lsa, key}
use ospfd.Lsdb.Entries.{key_eq}
use ospfd.Lsdb.Entries.Laws.{key_eq→eq, key_eq_refl}
use ospfd.Lsdb.Store.{LsdbEntry, Lsdb, get, changed, fresh_entry, install}
use ospfd.Lsdb.Store.Install.{verdict, get-install}

flip_same : (x : Ordering) → x ≡ flip x → x ≢ Ordering.gt
flip_same Ordering.gt h k = ground arith
flip_same Ordering.eq h k = ground arith
flip_same Ordering.lt h k = ground arith

not_before_itself : (h : LsaHeader) → is_more_recent_than h h ≢ Ordering.gt
not_before_itself h = flip_same (is_more_recent_than h h) (recency-flip h h)

flip_gt : (x y : Ordering) → y ≡ flip x → x ≡ Ordering.gt → y ≢ Ordering.gt
flip_gt x y h k l = ground arith

replaced_is_newer :
    (l : Lsa) (e : LsdbEntry) (now : ℕ) (db : Lsdb)
    → changed (verdict l (some e)) ≡ true
    → is_more_recent_than e.lsa.header l.header ≢ Ordering.gt
replaced_is_newer l e now db h =
    flip_gt (is_more_recent_than l.header e.lsa.header) (is_more_recent_than e.lsa.header l.header)
      (recency-flip l.header e.lsa.header) (ground arith)

rejected_is_not_newer :
    (l : Lsa) (e : LsdbEntry)
    → changed (verdict l (some e)) ≡ false
    → is_more_recent_than l.header e.lsa.header ≢ Ordering.gt
rejected_is_not_newer l e h k = ground arith

module _ (db : Lsdb) (l : Lsa) (now : ℕ) where
  abbrev answer : Bool
  answer = changed (install db l now).1

  unchanged_get :
      (k : LsaKey) → (answer && key_eq (key l) k) ≡ false → get (install db l now).0 k ≡ get db k
  unchanged_get k h = ground (arith, (get-install db l now k).1)

  changed_get :
      (k : LsaKey)
      → (answer && key_eq (key l) k) ≡ true
      → get (install db l now).0 k ≡ some (fresh_entry db l now)
  changed_get k h = ground (arith, (get-install db l now k).1)

  answer_lem : (o : Option LsdbEntry) → get db (key l) ≡ o → answer ≡ changed (verdict l o)
  answer_lem o h = rw ((get-install db l now (key l)).0, h)

  -- Whatever is installed, an entry that is found before is still found or another under its key
  -- that is not less recent.
  pub install-not_older :
      (k : LsaKey) (e : LsdbEntry)
      → get db k ≡ some e
      → (f : LsdbEntry) × (get (install db l now).0 k ≡ some f)
        × (is_more_recent_than e.lsa.header f.lsa.header ≢ Ordering.gt)
  install-not_older k e h = elim (Bool-cases (answer && key_eq (key l) k)) [
    | inr kept ↦ (e, rw (unchanged_get k kept) h, not_before_itself e.lsa.header)
    | inl new ↦
        let same : key l ≡ k = key_eq→eq (key l) k (ground arith) in
        let a : answer ≡ changed (verdict l (some e)) = answer_lem (some e) (rw same h) in
        (fresh_entry db l now, changed_get k new, replaced_is_newer l e now db (ground (arith, a)))
  ]

  -- After `install` an entry is found under the LSA's own key, and the LSA is not more recent than
  -- it.
  pub install-holds :
      (f : LsdbEntry) × (get (install db l now).0 (key l) ≡ some f)
      × (is_more_recent_than l.header f.lsa.header ≢ Ordering.gt)
  install-holds = by_found (get db (key l)) refl
    where
      by_found :
          (o : Option LsdbEntry)
          → get db (key l) ≡ o
          → (f : LsdbEntry) × (get (install db l now).0 (key l) ≡ some f)
            × (is_more_recent_than l.header f.lsa.header ≢ Ordering.gt)
      by_found none h = (
        fresh_entry db l now,
        changed_get (key l) (ground (arith, answer_lem none h, key_eq_refl (key l))),
        not_before_itself l.header,
      )
      by_found (some e) h = elim (Bool-cases answer) [
        | inl new ↦ (
          fresh_entry db l now,
          changed_get (key l) (ground (arith, key_eq_refl (key l))),
          not_before_itself l.header,
        )
        | inr kept ↦ (
          e,
          rw (unchanged_get (key l) (ground arith)) h,
          rejected_is_not_newer l e (ground (arith, answer_lem (some e) h)),
        )
      ]
