-- ===== src/Packet/Checksum/Ip.antt =====
-- The internet checksum: `ip_checksum` and `ip_checksum_verify` (src/packet/checksum.rs,
-- lines 6-36).
pub mod Sum
use ospfd.Common.{
  ℕ, zero, suc, ◌+◌, ◌-◌, ◌*◌, ◌/◌, ◌%◌, ◌^◌, Bool, true, false, List, [], ◌∷◌, ◌==◌, from_be16,
}

-- The bytes left and the u32 sum so far, which wraps; an odd byte at the end is a high byte.
unfoldable pub sum_words : List ℕ → ℕ → ℕ
sum_words [] s = s
sum_words (a ∷ []) s = (s + a * 256) % 2 ^ 32
sum_words (a ∷ b ∷ rest) s = sum_words rest ((s + from_be16 a b) % 2 ^ 32)

-- `while sum >> 16 != 0`, with the rounds left.
unfoldable pub fold_carries : ℕ → ℕ → ℕ
fold_carries zero s = s
fold_carries (suc rounds) s = elim (s / 65536 == 0) [
  | true ↦ s
  | false ↦ fold_carries rounds (s % 65536 + s / 65536)
]

-- A u32 is folded to 16 bits in two rounds; the third sees the loop's test fail.
unfoldable pub ip_checksum : List ℕ → ℕ
ip_checksum data_ = 65535 - fold_carries 3 (sum_words data_ 0) % 65536

unfoldable pub ip_checksum_verify : List ℕ → Bool
ip_checksum_verify data_ = ip_checksum data_ == 0
