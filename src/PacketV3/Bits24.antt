-- ===== src/PacketV3/Bits24.antt =====
-- A number of 24 bits in three bytes: `u32::from_be_bytes([0, data[i], data[i + 1], data[i + 2]])`,
-- and the last three of `to_be_bytes`, which the packets of src/packet_v3/ use for options and metrics.
use ospfd.Common.{
  ℕ, ◌+◌, ◌/◌, ◌%◌, ◌<◌, ◌≤◌, ◌≡◌, ◌^◌, arith, List, [], ◌∷◌, length, from_be32, u8_at,
  u8_at-Returns, Outcome, ok, ◌>>=◌, Returns, Returns->>=,
}

abbrev pub IsU24 : ℕ → Type 0
IsU24 n = n < 2 ^ 24

abbrev pub u24_at : List ℕ → ℕ → Outcome ℕ
u24_at data_ i = do
  a ← u8_at data_ i
  b ← u8_at data_ (i + 1)
  c ← u8_at data_ (i + 2)
  ok (from_be32 0 a b c)

abbrev pub be24 : ℕ → List ℕ
be24 n = (n / 65536 % 256) ∷ (n / 256 % 256) ∷ (n % 256) ∷ []

pub from_be24-be24 : (n : ℕ) → IsU24 n → from_be32 0 (n / 65536 % 256) (n / 256 % 256) (n % 256) ≡ n
from_be24-be24 n h = omega arith

pub u24_at-Returns : (l : List ℕ) (i : ℕ) → i + 3 ≤ length l → Returns (u24_at l i)
u24_at-Returns l i h = Returns->>= (u8_at l i) _ (u8_at-Returns l i (omega arith)) λ a _.
    Returns->>= (u8_at l (i + 1)) _ (u8_at-Returns l (i + 1) (omega arith))
      λ b _. Returns->>= (u8_at l (i + 2)) _ (u8_at-Returns l (i + 2) (omega arith)) λ c _. tt
