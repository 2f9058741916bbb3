-- ===== src/Packet/Checksum/Fletcher/Sums.antt =====
-- The two loops of the Fletcher checksum as plain sums.
use ospfd.Common.{
  ℕ, suc, ◌+◌, ◌*◌, ◌%◌, ◌^◌, ◌≤◌, ◌<◌, ◌≡◌, ap, arith, ◌⊎◌, List, [], ◌∷◌, ◌++◌, All, length, IsU8,
  length-append,
}
use native.Mathlib.Nat.{div-add-mod}
use ospfd.Packet.Checksum.Fletcher.{accumulate, verify_loop}

abbrev pub sum : List ℕ → ℕ
sum [] = 0
sum (b ∷ bs) = b + sum bs

-- Every byte as often as it is counted into the running total: once for each byte from it on.
abbrev pub weighted : List ℕ → ℕ
weighted [] = 0
weighted (b ∷ bs) = b * suc (length bs) + weighted bs

pub sum-append : (xs ys : List ℕ) → sum (xs ++ ys) ≡ sum xs + sum ys
sum-append [] ys = omega arith
sum-append (x ∷ xs) ys = omega (arith, sum-append xs ys)

pub weighted-append :
    (xs ys : List ℕ) → weighted (xs ++ ys) ≡ weighted xs + sum xs * length ys + weighted ys
weighted-append [] ys = omega arith
weighted-append (x ∷ xs) ys =
    omega (arith, weighted-append xs ys, ap (λ (n : ℕ). x * suc n) (length-append xs ys))

pub sum_bound : (xs : List ℕ) → All IsU8 xs → sum xs ≤ 255 * length xs
sum_bound [] h = omega arith
sum_bound (x ∷ xs) h = omega (arith, sum_bound xs h.1)

pub weighted_bound :
    (xs : List ℕ) → All IsU8 xs → 2 * weighted xs ≤ 255 * (length xs * suc (length xs))
weighted_bound [] h = omega arith
weighted_bound (x ∷ xs) h = grind (arith, weighted_bound xs h.1)

-- Over bytes before or behind the check bytes, the loop adds up as long as nothing wraps.
pub accumulate_segment :
    (offset i : ℕ) (xs rest : List ℕ) (c0 c1 : ℕ)
    → (i + length xs ≤ offset) ⊎ (offset + 2 ≤ i)
    → c0 + sum xs < 2 ^ 32
    → c1 + c0 * length xs + weighted xs < 2 ^ 32
    → accumulate offset i (xs ++ rest) c0 c1
      ≡ accumulate offset (i + length xs) rest (c0 + sum xs) (c1 + c0 * length xs + weighted xs)
unfolding accumulate
accumulate_segment offset i [] rest c0 c1 side h k = ground arith
accumulate_segment offset i (x ∷ xs) rest c0 c1 side h k =
    ground (arith, accumulate_segment offset (i + 1) xs rest (c0 + x) (c1 + (c0 + x)))

pub verify_loop_lem :
    (xs : List ℕ) (c0 c1 : ℕ)
    → c0 < 255
    → c1 < 255
    → verify_loop xs c0 c1 ≡ ((c0 + sum xs) % 255, (c1 + c0 * length xs + weighted xs) % 255)
unfolding verify_loop
verify_loop_lem [] c0 c1 h k = ground arith
verify_loop_lem (x ∷ xs) c0 c1 h k =
    let r = (c0 + x) % 255 in
    ground (
      arith,
      verify_loop_lem xs r ((c1 + r) % 255),
      ap (λ (z : ℕ). z * length xs) (div-add-mod (c0 + x) 255),
    )
