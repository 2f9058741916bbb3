-- ===== src/Common/Bytes.antt =====
-- Bytes of a slice, and words in big-endian bytes. A byte is a number below 256; an Ipv4Addr is
-- the u32 of its four octets, so that its order and its equality are those of the number.
use Prim.Native.Nat.{ℕ, ◌+◌, ◌*◌, ◌/◌, ◌%◌, ◌^◌, ◌≤◌, ◌<◌}
use mathlib.Core.Path.{◌≡◌}
use mathlib.Core.List.{List, [], ◌∷◌}
use native.Mathlib.Omega.{arith}
use ospfd.Common.Lists.{length, take, drop, length-drop}
use ospfd.Common.Tests.{ltb, ltb-false, if◌then◌else◌}
use ospfd.Common.Results.{Outcome, ok, fault, panic, Returns}

abbrev pub IsU8 : ℕ → Type 0
IsU8 n = n < 2 ^ 8

abbrev pub IsU16 : ℕ → Type 0
IsU16 n = n < 2 ^ 16

abbrev pub IsU32 : ℕ → Type 0
IsU32 n = n < 2 ^ 32

abbrev pub Ipv4Addr : Type 0
Ipv4Addr = ℕ

-- `Ipv4Addr::UNSPECIFIED`, 0.0.0.0
abbrev pub unspecified : Ipv4Addr
unspecified = 0

abbrev pub from_be16 : ℕ → ℕ → ℕ
from_be16 a b = a * 256 + b

abbrev pub from_be32 : ℕ → ℕ → ℕ → ℕ → ℕ
from_be32 a b c d = a * 16777216 + b * 65536 + c * 256 + d

-- `to_be_bytes` of a u16 and of a u32, the latter also `octets` of an address.
abbrev pub be16 : ℕ → List ℕ
be16 n = (n / 256 % 256) ∷ (n % 256) ∷ []

abbrev pub be32 : ℕ → List ℕ
be32 n = (n / 16777216 % 256) ∷ (n / 65536 % 256) ∷ (n / 256 % 256) ∷ (n % 256) ∷ []

pub from_be16-be16 : (n : ℕ) → IsU16 n → from_be16 (n / 256 % 256) (n % 256) ≡ n
from_be16-be16 n h = omega arith

pub from_be32-be32 :
    (n : ℕ)
    → IsU32 n
    → from_be32 (n / 16777216 % 256) (n / 65536 % 256) (n / 256 % 256) (n % 256) ≡ n
from_be32-be32 n h = omega arith

abbrev first8 : List ℕ → Outcome ℕ
first8 [] = fault panic
first8 (a ∷ _) = ok a

abbrev first16 : List ℕ → Outcome ℕ
first16 (a ∷ b ∷ _) = ok (from_be16 a b)
first16 _ = fault panic

abbrev first32 : List ℕ → Outcome ℕ
first32 (a ∷ b ∷ c ∷ d ∷ _) = ok (from_be32 a b c d)
first32 _ = fault panic

-- `data[i]`, and the word whose bytes are `data[i]`, `data[i + 1]` and so on: an index past the
-- end of the slice panics.
abbrev pub u8_at : List ℕ → ℕ → Outcome ℕ
u8_at data_ i = first8 (drop i data_)

abbrev pub u16_at : List ℕ → ℕ → Outcome ℕ
u16_at data_ i = first16 (drop i data_)

abbrev pub u32_at : List ℕ → ℕ → Outcome ℕ
u32_at data_ i = first32 (drop i data_)

-- `data[from..from + len]`, which panics past the end.
abbrev pub slice_at : List ℕ → ℕ → ℕ → Outcome (List ℕ)
slice_at data_ from len =
    if ltb (length data_) (from + len) then fault panic else ok (take len (drop from data_))

first8-Returns : (l : List ℕ) → 1 ≤ length l → Returns (first8 l)
first8-Returns [] h = omega arith
first8-Returns (a ∷ l) h = tt

first16-Returns : (l : List ℕ) → 2 ≤ length l → Returns (first16 l)
first16-Returns [] h = omega arith
first16-Returns (a ∷ []) h = absurd (omega arith)
first16-Returns (a ∷ b ∷ l) h = tt

first32-Returns : (l : List ℕ) → 4 ≤ length l → Returns (first32 l)
first32-Returns [] h = absurd (omega arith)
first32-Returns (a ∷ []) h = absurd (omega arith)
first32-Returns (a ∷ b ∷ []) h = absurd (omega arith)
first32-Returns (a ∷ b ∷ c ∷ []) h = absurd (omega arith)
first32-Returns (a ∷ b ∷ c ∷ d ∷ l) h = tt

-- A read inside the slice returns.
pub u8_at-Returns : (l : List ℕ) (i : ℕ) → i + 1 ≤ length l → Returns (u8_at l i)
u8_at-Returns l i h = first8-Returns (drop i l) (omega (arith, length-drop i l))

pub u16_at-Returns : (l : List ℕ) (i : ℕ) → i + 2 ≤ length l → Returns (u16_at l i)
u16_at-Returns l i h = first16-Returns (drop i l) (omega (arith, length-drop i l))

pub u32_at-Returns : (l : List ℕ) (i : ℕ) → i + 4 ≤ length l → Returns (u32_at l i)
u32_at-Returns l i h = first32-Returns (drop i l) (omega (arith, length-drop i l))

pub slice_at-Returns :
    (l : List ℕ) (from len : ℕ) → from + len ≤ length l → Returns (slice_at l from len)
slice_at-Returns l from len h = rw (ltb-false (length l) (from + len) h) tt
