-- ===== src/Packet/Examples/Auth.antt =====
-- Authentication of a small packet, with digests that are the first bytes of what they digest.
use ospfd.Common.{ℕ, ◌≡◌, refl, arith, true, false, List, [], ◌∷◌, All, IsU8}
use ospfd.Packet.Checksum.Ip.{ip_checksum, sum_words, fold_carries}
use ospfd.Packet.Seal.{without_auth, verify_ospf_checksum}
use ospfd.Packet.Auth.{
  HmacAlgo, sha256, digest_len, hmac_key, password, filled, apply_auth, verify_auth,
}
use ospfd.Packet.Auth.Verified.{length-filled, verify_auth-apply_auth}
use ospfd.Packet.Auth.Checksum.{apply_auth_spoils_checksum}

abbrev first_bytes : List ℕ → List ℕ
first_bytes d = filled 16 d

abbrev first_bytes_of : HmacAlgo → List ℕ → List ℕ → List ℕ
first_bytes_of algo k d = filled (digest_len algo) d

-- A header alone, of version 2 and type 1, with its checksum.
abbrev bare : List ℕ
bare =
    2 ∷ 1 ∷ 0 ∷ 24 ∷ 1 ∷ 1 ∷ 1 ∷ 1 ∷ 0 ∷ 0 ∷ 0 ∷ 0 ∷ 0xFB ∷ 0xE4 ∷ 0 ∷ 0 ∷ 0 ∷ 0 ∷ 0 ∷ 0 ∷ 0 ∷ 0 ∷ 0
    ∷ 0 ∷ []

bare_bytes : All IsU8 bare
bare_bytes = omega arith

bare_verifies : verify_ospf_checksum bare ≡ true
unfolding verify_ospf_checksum without_auth ip_checksum sum_words fold_carries
bare_verifies = refl

verify_auth-apply_auth_example :
    verify_auth first_bytes first_bytes_of
      (apply_auth first_bytes first_bytes_of bare (hmac_key sha256 7 (1 ∷ 2 ∷ [])) 99)
      (hmac_key sha256 7 (1 ∷ 2 ∷ []))
    ≡ true
verify_auth-apply_auth_example =
    verify_auth-apply_auth first_bytes first_bytes_of (λ d. length-filled 16 d)
      (λ algo k d. length-filled (digest_len algo) d) bare (hmac_key sha256 7 (1 ∷ 2 ∷ [])) 99
      (omega arith) refl tt

apply_auth_spoils_checksum_example :
    verify_ospf_checksum (apply_auth first_bytes first_bytes_of bare (password (9 ∷ 9 ∷ [])) 0)
    ≡ false
apply_auth_spoils_checksum_example =
    apply_auth_spoils_checksum first_bytes first_bytes_of bare (9 ∷ 9 ∷ []) 0 bare_bytes
      (omega arith) (omega arith) refl refl bare_verifies
