-- ===== src/Instance/Originate/Masks.antt =====
-- Prefix lengths and masks: `prefix_len_to_mask`, `mask_to_prefix_len_v4` and `prefix_covered_by`
-- (src/instance.rs).
use Prim.Native.Nat.{bit_and}
use ospfd.Common.{
  ◌≤◌, ◌≡◌, refl, arith, ◌&&◌, ℕ, zero, suc, ◌-◌, ◌*◌, ◌/◌, ◌%◌, ◌^◌, Bool, true, false, ltb, ◌==◌,
  if◌then◌else◌, Ipv4Addr, unspecified,
}
use ospfd.Spf.Routes.{mask_to_prefix_len, count_ones}
use ospfd.Spf.Routes.Masks.{all_below, all_below_lem}

-- `!0u32 << (32 - len)`, for a length of 32 at most. A longer one underflows, and the shift is by
-- its lowest five bits then (a release build); ℕ's subtraction is made up to 256.
unfoldable pub shifted_ones : ℕ → ℕ
shifted_ones len = 0xFFFFFFFF * 2 ^ ((288 - len) % 32) % 2 ^ 32

unfoldable pub prefix_len_to_mask : ℕ → Ipv4Addr
prefix_len_to_mask len = if len == 0 then unspecified else shifted_ones len

-- `leading_ones` of the lowest `n` bits.
unfoldable pub leading_ones : ℕ → ℕ → ℕ
leading_ones zero x = 0
leading_ones (suc n) x = let rest = leading_ones n x in if x / 2 ^ n % 2 == 1 then suc rest else 0

unfoldable pub mask_to_prefix_len_v4 : Ipv4Addr → ℕ
mask_to_prefix_len_v4 mask = leading_ones 32 mask

unfoldable pub prefix_covered_by : Ipv4Addr → Ipv4Addr → ℕ → Bool
prefix_covered_by addr summary_prefix summary_len =
    if summary_len == 0
    then true
    else if ltb 32 summary_len
    then false
    else bit_and addr (shifted_ones summary_len)
      == bit_and summary_prefix (shifted_ones summary_len)

mask_table :
    all_below 33 (λ len.
      mask_to_prefix_len_v4 (prefix_len_to_mask len) == len
      && mask_to_prefix_len (prefix_len_to_mask len) == len)
    ≡ true
unfolding all_below mask_to_prefix_len_v4 leading_ones prefix_len_to_mask shifted_ones
    mask_to_prefix_len count_ones
mask_table = refl

both_eq : (a b c : ℕ) → (a == c && b == c) ≡ true → (a ≡ c) × (b ≡ c)
both_eq a b c h = ground arith

-- The mask of a prefix length of at most 32 gives the length back, whether its leading ones are
-- counted, as the origination of external routes does, or all of its ones, as the calculation of
-- routes does.
pub mask_to_prefix_len-prefix_len_to_mask :
    (len : ℕ)
    → len ≤ 32
    → (mask_to_prefix_len_v4 (prefix_len_to_mask len) ≡ len)
      × (mask_to_prefix_len (prefix_len_to_mask len) ≡ len)
mask_to_prefix_len-prefix_len_to_mask len h =
    both_eq _ _ len (all_below_lem 33 _ len mask_table (omega arith))
