-- ===== src/Packet/Checksum/Ip/Sum.antt =====
-- The internet checksum as a sum modulo 65535.
use ospfd.Common.{
  ℕ, suc, ◌+◌, ◌-◌, ◌*◌, ◌%◌, ◌^◌, ◌≤◌, ◌<◌, ◌≡◌, ◌≢◌, arith, List, [], ◌∷◌, All, IsU8, length,
  from_be16,
}
use ospfd.Packet.Checksum.Ip.{sum_words, fold_carries}

abbrev pub words : List ℕ → ℕ
words [] = 0
words (a ∷ []) = a * 256
words (a ∷ b ∷ rest) = from_be16 a b + words rest

pub words_bound : (d : List ℕ) → All IsU8 d → 2 * words d ≤ 65535 * suc (length d)
words_bound [] h = omega arith
words_bound (a ∷ []) h = omega arith
words_bound (a ∷ b ∷ d) h = omega (arith, words_bound d h.1.1)

pub sum_words_lem : (d : List ℕ) (s : ℕ) → s + words d < 2 ^ 32 → sum_words d s ≡ s + words d
unfolding sum_words
sum_words_lem [] s h = omega arith
sum_words_lem (a ∷ []) s h = omega arith
sum_words_lem (a ∷ b ∷ d) s h =
    omega (arith, sum_words_lem d ((s + from_be16 a b) % 2 ^ 32) (omega arith))

-- Three rounds are enough for a u32: the result is below 65536, so the loop has ended; it is the
-- sum modulo 65535, and zero for a zero sum only.
pub fold_carries_lem :
    (s : ℕ)
    → s < 2 ^ 32
    → (fold_carries 3 s < 65536)
      × (fold_carries 3 s % 65535 ≡ s % 65535)
      × (s ≢ 0 → fold_carries 3 s ≢ 0)
unfolding fold_carries
fold_carries_lem s h = ground arith

-- The complement of the sum completes it to 65535.
pub completes :
    (t c : ℕ)
    → t < 2 ^ 31
    → c ≡ 65535 - fold_carries 3 t % 65536
    → 65535 - fold_carries 3 (t + c) % 65536 ≡ 0
completes t c h e = ground (arith, fold_carries_lem t, fold_carries_lem (t + c))
