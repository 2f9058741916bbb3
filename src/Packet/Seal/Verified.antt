-- ===== src/Packet/Seal/Verified.antt =====
-- A packet whose checksum was set verifies.
use ospfd.Common.{
  ℕ, ◌+◌, ◌-◌, ◌/◌, ◌%◌, ◌^◌, ◌≤◌, ◌<◌, ◌≡◌, refl, ◌∙◌, arith, true, List, ◌∷◌, ◌++◌, All, IsU8,
  length, ltb-false, from_be16, ap, take, drop, All-drop,
}
use ospfd.Packet.Checksum.Ip.{ip_checksum, fold_carries}
use ospfd.Packet.Checksum.Ip.Sum.{words, words_bound, sum_words_lem, completes}
use ospfd.Packet.Seal.{write_checksum, without_auth, set_ospf_checksum, verify_ospf_checksum}

pub ip_checksum-words :
    (d : List ℕ) → words d < 2 ^ 32 → ip_checksum d ≡ 65535 - fold_carries 3 (words d) % 65536
unfolding ip_checksum
ip_checksum-words d h = ground (arith, sum_words_lem d 0)

-- The packet with the check bytes `x` and `y` and with a zero authentication field.
abbrev blank : List ℕ → ℕ → ℕ → List ℕ
blank p x y =
    take 12 p ++ (x ∷ y ∷ (take 2 (drop 14 p) ++ (0 ∷ 0 ∷ 0 ∷ 0 ∷ 0 ∷ 0 ∷ 0 ∷ 0 ∷ drop 24 p)))

-- A packet of 24 bytes at least shows its header.
pub data Long : List ℕ → Type 0 where
  long :
      (b0 b1 b2 b3 b4 b5 b6 b7 b8 b9 b10 b11 b12 b13 b14 b15 b16 b17 b18 b19 b20 b21 b22 b23 : ℕ)
      (r : List ℕ)
      → Long (
          b0 ∷ b1 ∷ b2 ∷ b3 ∷ b4 ∷ b5 ∷ b6 ∷ b7 ∷ b8 ∷ b9 ∷ b10 ∷ b11 ∷ b12 ∷ b13 ∷ b14 ∷ b15 ∷ b16
          ∷ b17 ∷ b18 ∷ b19 ∷ b20 ∷ b21 ∷ b22 ∷ b23 ∷ r)

pub Long-of : (p : List ℕ) → 24 ≤ length p → Long p
Long-of
      (b0 ∷ b1 ∷ b2 ∷ b3 ∷ b4 ∷ b5 ∷ b6 ∷ b7 ∷ b8 ∷ b9 ∷ b10 ∷ b11 ∷ b12 ∷ b13 ∷ b14 ∷ b15 ∷ b16
        ∷ b17 ∷ b18 ∷ b19 ∷ b20 ∷ b21 ∷ b22 ∷ b23 ∷ r)
      k =
    long b0 b1 b2 b3 b4 b5 b6 b7 b8 b9 b10 b11 b12 b13 b14 b15 b16 b17 b18 b19 b20 b21 b22 b23 r
Long-of p k = absurd (omega arith)

-- What is summed to verify a packet whose checksum was written.
without_auth-write_checksum :
    (p : List ℕ)
    → Long p
    → let c = ip_checksum (blank p 0 0) in
      (without_auth (write_checksum p) ≡ blank p (c / 256 % 256) (c % 256))
      × (24 ≤ length (write_checksum p))
unfolding write_checksum without_auth
without_auth-write_checksum p
      (long b0 b1 b2 b3 b4 b5 b6 b7 b8 b9 b10 b11 b12 b13 b14 b15 b16 b17 b18 b19 b20 b21 b22 b23
        r) =
    (refl, omega arith)

untouched :
    (p : List ℕ)
    → Long p
    → (take 12 (write_checksum p) ≡ take 12 p) × (drop 14 (write_checksum p) ≡ drop 14 p)
unfolding write_checksum
untouched p
      (long b0 b1 b2 b3 b4 b5 b6 b7 b8 b9 b10 b11 b12 b13 b14 b15 b16 b17 b18 b19 b20 b21 b22 b23
        r) =
    (refl, refl)

words-blank :
    (p : List ℕ) (x y : ℕ)
    → Long p
    → All IsU8 p
    → length p ≤ 65535
    → (words (blank p x y) ≡ words (blank p 0 0) + from_be16 x y) × (words (blank p 0 0) < 2 ^ 31)
words-blank p x y
      (long b0 b1 b2 b3 b4 b5 b6 b7 b8 b9 b10 b11 b12 b13 b14 b15 b16 b17 b18 b19 b20 b21 b22 b23 r)
      h m =
    omega (
      arith,
      words_bound r (
          All-drop IsU8 24
            (b0 ∷ b1 ∷ b2 ∷ b3 ∷ b4 ∷ b5 ∷ b6 ∷ b7 ∷ b8 ∷ b9 ∷ b10 ∷ b11 ∷ b12 ∷ b13 ∷ b14 ∷ b15
              ∷ b16 ∷ b17 ∷ b18 ∷ b19 ∷ b20 ∷ b21 ∷ b22 ∷ b23 ∷ r)
            h),
    )

-- The sum over the packet with the check bytes put in is the complement's complement.
verified :
    (p : List ℕ)
    → Long p
    → All IsU8 p
    → length p ≤ 65535
    → let c = ip_checksum (blank p 0 0) in ip_checksum (blank p (c / 256 % 256) (c % 256)) ≡ 0
verified p l h m =
    let c = ip_checksum (blank p 0 0) in
    let (w, small) = words-blank p (c / 256 % 256) (c % 256) l h m in
    let e = ip_checksum-words (blank p 0 0) (omega arith) in
    let whole : words (blank p (c / 256 % 256) (c % 256)) ≡ words (blank p 0 0) + c = omega arith in
    ip_checksum-words (blank p (c / 256 % 256) (c % 256)) (omega arith)
    ∙ ap (λ (t : ℕ). 65535 - fold_carries 3 t % 65536) whole
    ∙ completes (words (blank p 0 0)) c small e

-- `set_ospf_checksum` makes any packet of 24 to 65535 bytes one that `verify_ospf_checksum`
-- accepts, and changes none but the two checksum bytes, 12 and 13.
pub verify-set_ospf_checksum :
    (p : List ℕ)
    → All IsU8 p
    → 24 ≤ length p
    → length p ≤ 65535
    → (verify_ospf_checksum (set_ospf_checksum p) ≡ true)
      × (take 12 (set_ospf_checksum p) ≡ take 12 p)
      × (drop 14 (set_ospf_checksum p) ≡ drop 14 p)
unfolding set_ospf_checksum verify_ospf_checksum
verify-set_ospf_checksum p h k m =
    let l = Long-of p k in
    let (e, n) = without_auth-write_checksum p l in
    let (front, back) = untouched p l in
    rw (ltb-false (length p) 24 k)
      (rw (ltb-false (length (write_checksum p)) 24 n) (rw e (rw (verified p l h m))), front, back)
