-- ===== src/Spf/Routes/Masks.antt =====
-- Masks and prefix lengths.
use ospfd.Common.{ℕ, zero, suc, ◌-◌, ◌^◌, ◌≤◌, ◌<◌, ◌≡◌, refl, arith, Bool, true, ◌&&◌, ◌==◌}
use ospfd.Spf.Routes.{count_ones, mask_to_prefix_len}

-- The mask of a prefix length.
abbrev pub mask_of : ℕ → ℕ
mask_of n = 2 ^ 32 - 2 ^ (32 - n)

unfoldable pub all_below : ℕ → (ℕ → Bool) → Bool
all_below zero p = true
all_below (suc n) p = p n && all_below n p

pub all_below_lem : (n : ℕ) (p : ℕ → Bool) (x : ℕ) → all_below n p ≡ true → x < n → p x ≡ true
unfolding all_below
all_below_lem zero p x h lt = absurd (omega arith)
all_below_lem (suc n) p x h lt = ground (arith, all_below_lem n p x)

mask_table : all_below 33 (λ n. mask_to_prefix_len (mask_of n) == n) ≡ true
unfolding all_below mask_to_prefix_len count_ones
mask_table = refl

is_eq : (a b : ℕ) → (a == b) ≡ true → a ≡ b
is_eq a b h = ground arith

-- The prefix length that is read off a mask is the one that the mask was made from.
pub mask_to_prefix_len-mask_of : (n : ℕ) → n ≤ 32 → mask_to_prefix_len (mask_of n) ≡ n
mask_to_prefix_len-mask_of n h = is_eq _ n (all_below_lem 33 _ n mask_table (omega arith))
