-- ===== src/Packet/Lsa/Header/Recency.antt =====
-- Which of two instances of an LSA is more recent: `LsaHeader::is_more_recent_than`
-- (src/packet/lsa.rs), which the link state database decides by.
use Prim.Native.Nat.{compare, Ordering}
use ospfd.Common.{ℕ, ◌+◌, ◌-◌, ◌%◌, ◌^◌, ◌≡◌, refl, arith, not, ◌&&◌, ltb, ◌==◌, if◌then◌else◌}
use ospfd.Packet.Lsa.Header.{LsaHeader, max_age}

-- The order of i32 values, read off their 32-bit patterns: flipping the sign bit turns it into
-- the order of the numbers.
abbrev pub signed_rank : ℕ → ℕ
signed_rank w = (w + 2 ^ 31) % 2 ^ 32

-- `(a as i32 - b as i32).unsigned_abs()`
abbrev age_diff : ℕ → ℕ → ℕ
age_diff a b = if ltb a b then b - a else a - b

-- Steps 3 and 4: MaxAge, then the younger one if the ages differ by more than 900 seconds.
abbrev compare_ages : ℕ → ℕ → Ordering
compare_ages a b =
    if a == max_age && not (b == max_age)
    then Ordering.gt
    else if not (a == max_age) && b == max_age
    then Ordering.lt
    else if ltb 900 (age_diff a b)
    then if ltb a b then Ordering.gt else Ordering.lt
    else Ordering.eq

-- `match a.cmp(b) { Greater => return Greater, Less => return Less, Equal => {} }`
abbrev pub then_with : Ordering → Ordering → Ordering
then_with Ordering.lt next = Ordering.lt
then_with Ordering.eq next = next
then_with Ordering.gt next = Ordering.gt

unfoldable pub is_more_recent_than : LsaHeader → LsaHeader → Ordering
is_more_recent_than h o =
    then_with (compare (signed_rank h.ls_sequence_number) (signed_rank o.ls_sequence_number))
      (then_with (compare h.ls_checksum o.ls_checksum) (compare_ages h.ls_age o.ls_age))

abbrev pub flip : Ordering → Ordering
flip Ordering.lt = Ordering.gt
flip Ordering.eq = Ordering.eq
flip Ordering.gt = Ordering.lt

compare-flip : (a b : ℕ) → compare b a ≡ flip (compare a b)
compare-flip a b = ground arith

compare_ages-flip : (a b : ℕ) → compare_ages b a ≡ flip (compare_ages a b)
compare_ages-flip a b = ground arith

then_with-flip : (x y : Ordering) → flip (then_with x y) ≡ then_with (flip x) (flip y)
then_with-flip Ordering.lt y = refl
then_with-flip _ y = refl

-- Two routers that compare the same two instances agree: exchanging the arguments exchanges
-- "more recent" with "older" and keeps "the same instance".
pub recency-flip : (h o : LsaHeader) → is_more_recent_than o h ≡ flip (is_more_recent_than h o)
unfolding is_more_recent_than
recency-flip h o = rw (
  compare-flip (signed_rank h.ls_sequence_number) (signed_rank o.ls_sequence_number),
  compare-flip h.ls_checksum o.ls_checksum,
  compare_ages-flip h.ls_age o.ls_age,
  then_with-flip (compare (signed_rank h.ls_sequence_number) (signed_rank o.ls_sequence_number)),
  then_with-flip (compare h.ls_checksum o.ls_checksum),
)

compare_ages_trans :
    (a b c : ℕ)
    → compare_ages a b ≡ Ordering.gt
    → compare_ages b c ≡ Ordering.gt
    → compare_ages a c ≡ Ordering.gt
compare_ages_trans a b c p q = ground arith

then_with_trans :
    (a b c : ℕ) (x y z : Ordering)
    → (x ≡ Ordering.gt → y ≡ Ordering.gt → z ≡ Ordering.gt)
    → then_with (compare a b) x ≡ Ordering.gt
    → then_with (compare b c) y ≡ Ordering.gt
    → then_with (compare a c) z ≡ Ordering.gt
then_with_trans a b c x y z next p q = ground arith

-- "More recent" is transitive.
pub recency_trans :
    (a b c : LsaHeader)
    → is_more_recent_than a b ≡ Ordering.gt
    → is_more_recent_than b c ≡ Ordering.gt
    → is_more_recent_than a c ≡ Ordering.gt
unfolding is_more_recent_than
recency_trans a b c p q =
    let rank = λ (h : LsaHeader). signed_rank h.ls_sequence_number in
    then_with_trans (rank a) (rank b) (rank c) _ _ _
      (then_with_trans a.ls_checksum b.ls_checksum c.ls_checksum _ _ _
        (compare_ages_trans a.ls_age b.ls_age c.ls_age))
      p q
