-- ===== src/Packet/Checksum/Fletcher/Correct.antt =====
-- The check bytes that `fletcher16` computes are those that `fletcher16_verify` accepts.
use ospfd.Common.{
  ℕ, suc, ◌+◌, ◌-◌, ◌*◌, ◌/◌, ◌%◌, ◌^◌, ◌≤◌, ◌<◌, ◌≡◌, refl, ap, ◌∙◌, arith, ◌⊎◌, inl, inr, true,
  List, [], ◌∷◌, ◌++◌, All, All-append, length, IsU8, length-append, le_or_lt,
}
use ospfd.Common.Int.{pos, ◌+ℤ◌, ◌-ℤ◌, ◌*ℤ◌, sub_ℕ, rem_ℤ}
use mathlib.Core.Path.{◌≡⟨◌⟩◌, ◌∎}
use mathlib.Core.List.{append-nil}
use native.Mathlib.Decide.{ℕ_discrete}
use native.Mathlib.Nat.{div-add-mod}
use ospfd.Packet.Checksum.Fletcher.{
  accumulate, lift_positive, check_x, check_y, check_bytes, rem_i32, fletcher16, fletcher16_verify,
}
use ospfd.Packet.Checksum.Fletcher.Sums.{
  sum, weighted, sum-append, weighted-append, sum_bound, weighted_bound, accumulate_segment,
  verify_loop_lem,
}

-- The data with the two check bytes in place.
abbrev pub sealed : List ℕ → ℕ → ℕ → List ℕ → List ℕ
sealed front x y back = front ++ (x ∷ y ∷ back)

accumulate_skip :
    (n a b c0 c1 : ℕ) (rest : List ℕ)
    → c1 + 2 * c0 < 2 ^ 32
    → accumulate n n (a ∷ b ∷ rest) c0 c1 ≡ accumulate n (n + 2) rest c0 (c1 + 2 * c0)
unfolding accumulate
accumulate_skip n a b c0 c1 rest h = ground arith

-- The sums of the sealed data, in terms of the parts.
sealed_sums :
    (front back : List ℕ) (x y : ℕ)
    → (sum (sealed front x y back) ≡ sum front + x + y + sum back)
      × (weighted (sealed front x y back)
          ≡ weighted front
            + sum front * length back
            + 2 * sum front
            + x * length back
            + 2 * x
            + y * length back
            + y
            + weighted back)
sealed_sums front back x y = (
  omega (arith, sum-append front (x ∷ y ∷ back)),
  omega (arith, weighted-append front (x ∷ y ∷ back)),
)

accumulate_nil : (n i c0 c1 : ℕ) → accumulate n i [] c0 c1 ≡ (c0, c1)
unfolding accumulate
accumulate_nil n i c0 c1 = refl

accumulate_tail :
    (n i : ℕ) (xs : List ℕ) (c0 c1 : ℕ)
    → (i + length xs ≤ n) ⊎ (n + 2 ≤ i)
    → c0 + sum xs < 2 ^ 32
    → c1 + c0 * length xs + weighted xs < 2 ^ 32
    → accumulate n i xs c0 c1 ≡ (c0 + sum xs, c1 + c0 * length xs + weighted xs)
accumulate_tail n i xs c0 c1 side h k =
    (rw append-nil at (accumulate_segment n i xs [] c0 c1 side h k))
    ∙ accumulate_nil n (i + length xs) (c0 + sum xs) (c1 + c0 * length xs + weighted xs)

-- The sums that the check bytes are computed from, with the check bytes counted as zero.
accumulate_all :
    (front back : List ℕ) (a b : ℕ)
    → weighted (sealed front 0 0 back) + sum (sealed front 0 0 back) < 2 ^ 32
    → accumulate (length front) 0 (sealed front a b back) 0 0
      ≡ (sum (sealed front 0 0 back), weighted (sealed front 0 0 back))
accumulate_all front back a b h =
    let n = length front in
    let s = sum front in
    let w = weighted front in
    accumulate n 0 (sealed front a b back) 0 0
    ≡⟨ accumulate_segment n 0 front (a ∷ b ∷ back) 0 0 (inl (omega arith))
        (omega (arith, sealed_sums front back 0 0)) (omega (arith, sealed_sums front back 0 0)) ⟩
      accumulate n (0 + n) (a ∷ b ∷ back) (0 + s) (0 + 0 * n + w)
    ≡⟨ ground arith ⟩ accumulate n n (a ∷ b ∷ back) s w
    ≡⟨ accumulate_skip n a b s w back (omega (arith, sealed_sums front back 0 0)) ⟩
      accumulate n (n + 2) back s (w + 2 * s)
    ≡⟨ accumulate_tail n (n + 2) back s (w + 2 * s) (inr (omega arith))
        (omega (arith, sealed_sums front back 0 0)) (omega (arith, sealed_sums front back 0 0)) ⟩
      (s + sum back, w + 2 * s + s * length back + weighted back)
    ≡⟨ ground (arith, sealed_sums front back 0 0) ⟩
      (sum (sealed front 0 0 back), weighted (sealed front 0 0 back)) ∎

signed_x : (a b k : ℕ) → pos 0 -ℤ pos b +ℤ (pos (suc k) -ℤ pos 1) *ℤ pos a ≡ sub_ℕ (k * a) b
signed_x a b k = ground arith

-- A value from 1 to 255 that makes up for `b` in `p`, modulo 255.
abbrev Completes : ℕ → ℕ → ℕ → Type 0
Completes p b v = (1 ≤ v) × (v ≤ 255) × ((v + b) % 255 ≡ p % 255)

check_x_general :
    (p b : ℕ)
    → b < 255
    → (v : ℕ) × (lift_positive (rem_ℤ (sub_ℕ p b) 255) ≡ pos v) × Completes p b v
check_x_general p b h = elim (le_or_lt b p) [
  | inl le ↦ elim (ℕ_discrete ((p - b) % 255) 0) [
    | yes z ↦ (255, ground arith, ground arith)
    | no nz ↦ ((p - b) % 255, ground arith, ground arith)
  ]
  | inr lt ↦ (255 - (b - p) % 255, ground arith, ground arith)
]

check_x_lem :
    (a b k : ℕ)
    → b < 255
    → (v : ℕ) × (check_x (pos a) (pos b) (pos (suc k)) ≡ pos v) × Completes (k * a) b v
unfolding check_x
check_x_lem a b k h = rw (signed_x a b k) (check_x_general (k * a) b h)

check_y_lem :
    (a x : ℕ)
    → a < 255
    → 1 ≤ x
    → x ≤ 255
    → (w : ℕ) × (check_y (pos a) (pos x) ≡ pos w) × (w ≤ 255) × ((x + w + a) % 255 ≡ 0)
unfolding check_y
check_y_lem a x h lo hi = elim (le_or_lt (510 - a - x) 255) [
  | inl le ↦ elim (ℕ_discrete (510 - a - x) 0) [
    | yes z ↦ (255, ground arith, ground arith, ground arith)
    | no nz ↦ (510 - a - x, ground arith, ground arith, ground arith)
  ]
  | inr lt ↦ (255 - a - x, ground arith, ground arith, ground arith)
]

rem_i32_pos : (c : ℕ) → c < 2 ^ 31 → rem_i32 c ≡ pos (c % 255)
unfolding rem_i32
rem_i32_pos c h = ground arith

span : (m n : ℕ) → pos (m + suc (suc n)) -ℤ pos m ≡ pos (suc (suc n))
span m n = ground arith

spread : (k a b c : ℕ) → k * (a + b + c) ≡ k * a + k * b + k * c
spread k a b c = omega arith

spread_two : (k a b : ℕ) → k * (a + b) ≡ k * a + k * b
spread_two k a b = omega arith

regroup : (k m r : ℕ) → k * (255 * m + r) ≡ 255 * (k * m) + k * r
regroup k m r = omega arith

cancels :
    (s w x y k : ℕ)
    → (x + w % 255) % 255 ≡ k * (s % 255) % 255
    → (x + y + s % 255) % 255 ≡ 0
    → (s + x + y) % 255 ≡ 0 × ((w + x + k * (x + y)) % 255 ≡ 0)
cancels s w x y k p q = (
  omega arith,
  omega (
    arith,
    ap (λ (z : ℕ). k * z) (div-add-mod (x + y + s % 255) 255),
    ap (λ (z : ℕ). k * z) q,
    spread k x y (s % 255),
    spread_two k x y,
    regroup k ((x + y + s % 255) / 255) ((x + y + s % 255) % 255),
  ),
)

square_le : (a b : ℕ) → a ≤ b → a * suc a ≤ b * suc b
square_le a b h = grind arith

-- Up to 4103 bytes the i32 sums of `fletcher16` cannot wrap.
sums_fit :
    (front back : List ℕ)
    → All IsU8 front
    → All IsU8 back
    → length front + length back ≤ 4101
    → weighted (sealed front 0 0 back) + sum (sealed front 0 0 back) < 2 ^ 32
      × weighted (sealed front 0 0 back) < 2 ^ 31
      × sum (sealed front 0 0 back) < 2 ^ 31
sums_fit front back hf hb small =
    let l = length front + length back + 2 in
    let bytes = All-append IsU8 front (0 ∷ 0 ∷ back) hf (omega arith, (omega arith, hb)) in
    let size = length-append front (0 ∷ 0 ∷ back) in
    let wide = square_le (length (sealed front 0 0 back)) 4103 (omega (arith, size)) in
    omega (
      arith,
      weighted_bound (sealed front 0 0 back) bytes,
      sum_bound (sealed front 0 0 back) bytes,
      wide,
      size,
    )

fletcher16_sums :
    (front back : List ℕ) (a b : ℕ)
    → All IsU8 front
    → All IsU8 back
    → length front + length back ≤ 4101
    → fletcher16 (sealed front a b back) (length front)
      ≡ check_bytes
          (pos (sum (sealed front 0 0 back) % 255))
          (pos (weighted (sealed front 0 0 back) % 255))
          (pos (suc (suc (length back))))
unfolding fletcher16
fletcher16_sums front back a b hf hb small =
    let (fit, fit1, fit0) = sums_fit front back hf hb small in
    rw (accumulate_all front back a b fit) (
      cc (
        rem_i32_pos (sum (sealed front 0 0 back)) fit0,
        rem_i32_pos (weighted (sealed front 0 0 back)) fit1,
        span (length front) (length back),
        length-append front (a ∷ b ∷ back),
      ))

-- The check bytes are bytes, and cancel both sums.
check_bytes_lem :
    (a b k : ℕ)
    → a < 255
    → b < 255
    → (x y : ℕ) × (check_bytes (pos a) (pos b) (pos (suc k)) ≡ (x, y))
      × IsU8 x
      × IsU8 y
      × ((x + b) % 255 ≡ k * a % 255)
      × ((x + y + a) % 255 ≡ 0)
unfolding check_bytes
check_bytes_lem a b k ha hb =
    let (x, ex, range) = check_x_lem a b k hb in
    let (lo, hi, mx) = range in
    let (y, ey, hy, my) = check_y_lem a x ha lo hi in
    (x, y, rw ex (rw ey (ground arith)), omega arith, omega arith, mx, my)

accepts :
    (front back : List ℕ) (x y : ℕ)
    → (x + weighted (sealed front 0 0 back) % 255) % 255
      ≡ suc (length back) * (sum (sealed front 0 0 back) % 255) % 255
    → (x + y + sum (sealed front 0 0 back) % 255) % 255 ≡ 0
    → fletcher16_verify (sealed front x y back) ≡ true
unfolding fletcher16_verify
accepts front back x y p q =
    let s = sum (sealed front 0 0 back) in
    let w = weighted (sealed front 0 0 back) in
    let (c0, c1) = cancels s w x y (suc (length back)) p q in
    ground (
      arith,
      verify_loop_lem (sealed front x y back) 0 0,
      sealed_sums front back x y,
      sealed_sums front back 0 0,
      c0,
      c1,
      spread_two (suc (length back)) x y,
    )

-- Data of at most 4103 bytes with the two bytes that `fletcher16` computes for it put in at the
-- check offset, whatever stood there before, passes `fletcher16_verify`; and the two are bytes.
pub fletcher16_verify-fletcher16 :
    (front back : List ℕ) (a b : ℕ)
    → All IsU8 front
    → All IsU8 back
    → length front + length back ≤ 4101
    → let (x, y) = fletcher16 (sealed front a b back) (length front) in
      (fletcher16_verify (sealed front x y back) ≡ true) × IsU8 x × IsU8 y
fletcher16_verify-fletcher16 front back a b hf hb small =
    let s = sum (sealed front 0 0 back) in
    let w = weighted (sealed front 0 0 back) in
    let (x, y, e, hx, hy, p, q) =
      check_bytes_lem (s % 255) (w % 255) (suc (length back)) (omega arith) (omega arith) in
    rw (fletcher16_sums front back a b hf hb small ∙ e) (accepts front back x y p q, hx, hy)
