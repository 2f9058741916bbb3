-- ===== src/Packet/Auth/Checksum.antt =====
-- A password spoils the checksum of the packet (src/packet/auth.rs, src/packet/mod.rs).
use ospfd.Common.{
  ℕ, ◌+◌, ◌-◌, ◌%◌, ◌^◌, ◌≤◌, ◌<◌, ◌≡◌, ◌≢◌, refl, sym, ap, ◌∙◌, arith, true, false, List, ◌∷◌, All,
  All-drop, IsU8, length, set, ltb, ltb-false, ◌==◌,
}
use ospfd.Packet.Checksum.Ip.{ip_checksum, fold_carries}
use ospfd.Packet.Checksum.Ip.Sum.{words, words_bound, fold_carries_lem}
use ospfd.Packet.Seal.{without_auth, verify_ospf_checksum}
use ospfd.Packet.Seal.Verified.{Long, long, Long-of, ip_checksum-words}
use ospfd.Packet.Auth.{HmacAlgo, password, filled, write_all, byte, apply_auth}
use ospfd.Packet.Auth.Verified.{Eight, eight, filled-Eight}

abbrev spoiled : List ℕ → List ℕ → List ℕ
spoiled p f = write_all (set (set p 14 0) 15 1) 16 f

words-spoiled :
    (p f : List ℕ)
    → Long p
    → Eight f
    → byte p 14 ≡ 0
    → byte p 15 ≡ 0
    → All IsU8 p
    → length p ≤ 65535
    → (words (without_auth (spoiled p f)) ≡ words (without_auth p) + 1)
      × (words (without_auth p) < 2 ^ 31)
      × (length (spoiled p f) ≡ length p)
unfolding without_auth write_all
words-spoiled p f
      (long b0 b1 b2 b3 b4 b5 b6 b7 b8 b9 b10 b11 b12 b13 b14 b15 b16 b17 b18 b19 b20 b21 b22 b23 r)
      (eight _ _ _ _ _ _ _ _) k0 k1 h m =
    let bound = words_bound r (
      All-drop IsU8 24
        (b0 ∷ b1 ∷ b2 ∷ b3 ∷ b4 ∷ b5 ∷ b6 ∷ b7 ∷ b8 ∷ b9 ∷ b10 ∷ b11 ∷ b12 ∷ b13 ∷ b14 ∷ b15 ∷ b16
          ∷ b17 ∷ b18 ∷ b19 ∷ b20 ∷ b21 ∷ b22 ∷ b23 ∷ r)
        h) in
    (omega (arith, k0, k1), omega (arith, bound), refl)

one_more :
    (t : ℕ)
    → t < 2 ^ 31
    → 65535 - fold_carries 3 t % 65536 ≡ 0
    → 65535 - fold_carries 3 (t + 1) % 65536 ≢ 0
one_more t h e f = ground (arith, fold_carries_lem t, fold_carries_lem (t + 1))

-- A packet of 24 to 65535 bytes that says that it is not authenticated and that `verify_ospf_checksum`
-- accepts is refused by it once `apply_auth` has put a password in: the AuType that is written is
-- under the checksum, which stays as it was.
pub apply_auth_spoils_checksum :
    (md5 : List ℕ → List ℕ) (hmac_sha : HmacAlgo → List ℕ → List ℕ → List ℕ) (p w : List ℕ)
    (sequence : ℕ)
    → All IsU8 p
    → 24 ≤ length p
    → length p ≤ 65535
    → byte p 14 ≡ 0
    → byte p 15 ≡ 0
    → verify_ospf_checksum p ≡ true
    → verify_ospf_checksum (apply_auth md5 hmac_sha p (password w) sequence) ≡ false
unfolding verify_ospf_checksum apply_auth
apply_auth_spoils_checksum md5 hmac_sha p w sequence h k m k0 k1 v =
    let (more, small, size) =
      words-spoiled p (filled 8 w) (Long-of p k) (filled-Eight w) k0 k1 h m in
    let enough : ltb (length p) 24 ≡ false = ltb-false _ _ k in
    let v' : (ip_checksum (without_auth p) == 0) ≡ true = rw enough at v in
    let before : ip_checksum (without_auth p) ≡ 0 = ground arith in
    let e = ip_checksum-words (without_auth p) (omega arith) in
    let e' = ip_checksum-words (without_auth (spoiled p (filled 8 w))) (omega arith) in
    let after : ip_checksum (without_auth (spoiled p (filled 8 w))) ≢ 0 = λ z.
      one_more (words (without_auth p)) small (sym e ∙ before)
        (sym (ap (λ (t : ℕ). 65535 - fold_carries 3 t % 65536) more) ∙ (sym e' ∙ z)) in
    rw (enough, size, enough) (ground (arith, after))
