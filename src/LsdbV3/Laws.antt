-- ===== src/LsdbV3/Laws.antt =====
-- What an insertion does to the entries and to the generation (src/lsdb_v3.rs).
use ospfd.Common.{
  ℕ, ◌+◌, ◌%◌, ◌^◌, ◌<◌, ◌≡◌, refl, sym, ap, ◌∙◌, ◌==◌, arith, true, false, Bool-cases, inl, inr,
  Option, none, some, List, [], ◌∷◌, if◌then◌else◌,
}
use mathlib.Core.Logic.{◌↔◌}
use ospfd.PacketV3.Lsa.{LsaV3Type, to_u16, from_u16, from_u16-to_u16}
use ospfd.LsdbV3.{
  LsaKeyV3, LsaEntryV3, LsdbV3, area_eq, key_v3_eq, find_v3, put_v3, key_of, content_changed,
  insert, get_v3,
}

to_u16_inj : (s t : LsaV3Type) → (to_u16 s == to_u16 t) ≡ true → s ≡ t
to_u16_inj s t h =
    let n : to_u16 s ≡ to_u16 t = ground arith in
    let same : some s ≡ some t = sym (from_u16-to_u16 s) ∙ (ap from_u16 n ∙ from_u16-to_u16 t) in cc

area_eq→eq : (a b : Option ℕ) → area_eq a b ≡ true → a ≡ b
area_eq→eq none none h = refl
area_eq→eq none (some b) h = cc
area_eq→eq (some a) none h = cc
area_eq→eq (some a) (some b) h = ground arith

key_v3_eq→eq : (a b : LsaKeyV3) → key_v3_eq a b ≡ true → a ≡ b
key_v3_eq→eq a b h =
    let areas : area_eq a.area b.area ≡ true = ground arith in
    let kinds : (to_u16 a.ls_type == to_u16 b.ls_type) ≡ true = ground arith in
    ground (arith, area_eq→eq a.area b.area areas, to_u16_inj a.ls_type b.ls_type kinds)

find_v3-put_v3 :
    (j k : LsaKeyV3) (e : LsaEntryV3) (m : List (LsaKeyV3 × LsaEntryV3))
    → find_v3 j (put_v3 k e m) ≡ (if key_v3_eq k j then some e else find_v3 j m)
unfolding find_v3 put_v3
find_v3-put_v3 j k e [] = refl
find_v3-put_v3 j k e ((i, f) ∷ m) = elim (Bool-cases (key_v3_eq i k)) [
  | inl same ↦
      let e' : key_v3_eq i j ≡ key_v3_eq k j = ap (λ x. key_v3_eq x j) (key_v3_eq→eq i k same) in
      rw (same, e') (ground arith)
  | inr other ↦ elim (Bool-cases (key_v3_eq k j)) [
    | inl here ↦
        let no : key_v3_eq i j ≡ false =
          ap (λ x. key_v3_eq i x) (sym (key_v3_eq→eq k j here)) ∙ other in
        let ih : find_v3 j (put_v3 k e m) ≡ some e = rw (find_v3-put_v3 j k e m, here) refl in
        rw (other, here, no) ih
    | inr there ↦
        let ih : find_v3 j (put_v3 k e m) ≡ find_v3 j m = rw (find_v3-put_v3 j k e m, there) refl in
        rw (other, there, ih) refl
  ]
]

-- What a key is held with.
pub record Held (db : LsdbV3) (e : LsaEntryV3) : Type 0 where
  pub old : LsaEntryV3
  pub found : get_v3 db (key_of e) ≡ some old
  pub sequence : old.header.ls_sequence_number ≡ e.header.ls_sequence_number
  pub checksum : old.header.ls_checksum ≡ e.header.ls_checksum

unchanged-Held :
    (db : LsdbV3) (e : LsaEntryV3) (o : Option LsaEntryV3)
    → get_v3 db (key_of e) ≡ o
    → content_changed e o ≡ false
    → Held db e
unchanged-Held db e none f h = cc
unchanged-Held db e (some old) f h = record {
  old = old;
  found = f;
  sequence = ground arith;
  checksum = ground arith;
}

Held-unchanged :
    (db : LsdbV3) (e : LsaEntryV3) → Held db e → content_changed e (get_v3 db (key_of e)) ≡ false
Held-unchanged db e h = rw h.found (ground (arith, h.sequence, h.checksum))

-- An inserted entry is found under its key and every other key is as before; and the generation stays
-- exactly when the key had an entry of the same sequence number and checksum.
pub insert_lem :
    (db : LsdbV3) (e : LsaEntryV3)
    → db.generation < 2 ^ 64
    → ((j : LsaKeyV3)
        → get_v3 (insert db e) j ≡ (if key_v3_eq (key_of e) j then some e else get_v3 db j))
      × (((insert db e).generation ≡ db.generation) ↔ Held db e)
unfolding insert
insert_lem db e small = (
  (λ j. find_v3-put_v3 j (key_of e) e db.entries),
  (
    (λ h. elim (Bool-cases (content_changed e (find_v3 (key_of e) db.entries))) [
      | inl new ↦
          let h' : (db.generation + 1) % 2 ^ 64 ≡ db.generation = rw new at h in
          absurd (omega (arith, h'))
      | inr old ↦ unchanged-Held db e (get_v3 db (key_of e)) refl old
    ]),
    (λ h. rw (Held-unchanged db e h) refl),
  ),
)
