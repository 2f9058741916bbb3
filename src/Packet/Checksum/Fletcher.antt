-- ===== src/Packet/Checksum/Fletcher.antt =====
-- The Fletcher checksum of an LSA: `fletcher16` and `fletcher16_verify`
-- (src/packet/checksum.rs, lines 37-100).
mod Sums
pub mod Correct
use ospfd.Common.{
  ℕ, ◌+◌, ◌-◌, ◌%◌, ◌^◌, Bool, ◌&&◌, ◌||◌, List, [], ◌∷◌, length, ◌==◌, if◌then◌else◌,
}
use ospfd.Common.Int.{ℤ, pos, ◌+ℤ◌, ◌-ℤ◌, ◌*ℤ◌, leb_ℤ, rem_ℤ, as_u8, signed32}

-- `+` on i32 patterns, which wraps in a release build.
abbrev pub add_i32 : ℕ → ℕ → ℕ
add_i32 a b = (a + b) % 2 ^ 32

-- The loop of `fletcher16`: `i` is the index of the first byte left.
unfoldable pub accumulate : ℕ → ℕ → List ℕ → ℕ → ℕ → ℕ × ℕ
accumulate offset i [] c0 c1 = (c0, c1)
accumulate offset i (byte ∷ rest) c0 c1 =
    let c0' = if i == offset || i == offset + 1 then c0 else add_i32 c0 byte in
    accumulate offset (i + 1) rest c0' (add_i32 c1 c0')

-- `if v <= 0 { v += 255; }`
abbrev pub lift_positive : ℤ → ℤ
lift_positive v = if leb_ℤ v (pos 0) then v +ℤ pos 255 else v

-- x = (-c1 + (q - 1) * c0) % 255, in i64
unfoldable pub check_x : ℤ → ℤ → ℤ → ℤ
check_x c0 c1 q = lift_positive (rem_ℤ (pos 0 -ℤ c1 +ℤ (q -ℤ pos 1) *ℤ c0) 255)

-- y = 510 - c0 - x
unfoldable pub check_y : ℤ → ℤ → ℤ
check_y c0 x =
    let y = pos 510 -ℤ c0 -ℤ x in lift_positive (if leb_ℤ y (pos 255) then y else y -ℤ pos 255)

-- The two check bytes, from the sums and `q = len - checksum_offset`.
unfoldable pub check_bytes : ℤ → ℤ → ℤ → ℕ × ℕ
check_bytes c0 c1 q = let x = check_x c0 c1 q in (as_u8 x, as_u8 (check_y c0 x))

-- `c %= 255` on an i32, from its pattern.
unfoldable pub rem_i32 : ℕ → ℤ
rem_i32 c = rem_ℤ (signed32 c) 255

unfoldable pub fletcher16 : List ℕ → ℕ → ℕ × ℕ
fletcher16 data_ offset =
    let (c0, c1) = accumulate offset 0 data_ 0 0 in
    check_bytes (rem_i32 c0) (rem_i32 c1) (pos (length data_) -ℤ pos offset)

unfoldable pub verify_loop : List ℕ → ℕ → ℕ → ℕ × ℕ
verify_loop [] c0 c1 = (c0, c1)
verify_loop (byte ∷ rest) c0 c1 =
    let c0' = (c0 + byte) % 255 in verify_loop rest c0' ((c1 + c0') % 255)

unfoldable pub fletcher16_verify : List ℕ → Bool
fletcher16_verify data_ = let (c0, c1) = verify_loop data_ 0 0 in c0 == 0 && c1 == 0
