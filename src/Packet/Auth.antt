-- ===== src/Packet/Auth.antt =====
-- Packet authentication (src/packet/auth.rs). The digests of the crates md-5, hmac and sha2 are
-- parameters: `md5` of the bytes, and `hmac_sha` of an algorithm, a key and the bytes. `ct_eq` compares
-- the bytes. The bytes that are read stand within the 24 of the header, whose length is tested first.
pub mod Verified
pub mod Checksum
use ospfd.Common.{
  ℕ, zero, suc, ◌+◌, ◌-◌, ◌/◌, ◌%◌, min, Bool, true, false, not, ◌&&◌, ◌||◌, Option, none, some,
  List, [], ◌∷◌, ◌++◌, length, take, drop, set, ltb, ◌==◌, if◌then◌else◌, from_be16,
}

pub data AuType : Type 0 where
  null simple crypto : AuType

abbrev pub au_type_from_u16 : ℕ → Option AuType
au_type_from_u16 zero = some null
au_type_from_u16 (suc zero) = some simple
au_type_from_u16 (suc (suc zero)) = some crypto
au_type_from_u16 _ = none

abbrev pub au_type_to_u16 : AuType → ℕ
au_type_to_u16 null = 0
au_type_to_u16 simple = 1
au_type_to_u16 crypto = 2

pub data HmacAlgo : Type 0 where
  sha256 sha384 sha512 : HmacAlgo

abbrev pub digest_len : HmacAlgo → ℕ
digest_len sha256 = 32
digest_len sha384 = 48
digest_len sha512 = 64

pub data AuthKey : Type 0 where
  no_key : AuthKey
  password : List ℕ → AuthKey
  md5_key : ℕ → List ℕ → AuthKey
  hmac_key : HmacAlgo → ℕ → List ℕ → AuthKey

abbrev pub key_au_type : AuthKey → AuType
key_au_type no_key = null
key_au_type (password w) = simple
key_au_type (md5_key id k) = crypto
key_au_type (hmac_key algo id k) = crypto

-- `n` octets of `APAD`, which repeats four of them.
unfoldable pub apad : ℕ → List ℕ
apad (suc (suc (suc (suc n)))) = 0x87 ∷ 0x8F ∷ 0xE1 ∷ 0xF3 ∷ apad n
apad _ = []

-- The first `n` bytes of `l`, and zeros up to `n`.
unfoldable pub filled : ℕ → List ℕ → List ℕ
filled zero l = []
filled (suc n) [] = 0 ∷ filled n []
filled (suc n) (x ∷ l) = x ∷ filled n l

unfoldable pub write_all : List ℕ → ℕ → List ℕ → List ℕ
write_all p i [] = p
write_all p i (b ∷ bs) = write_all (set p i b) (i + 1) bs

-- AuType 2, a checksum of 0, and the authentication field: 0, 0, the key's id, the digest's length
-- and the sequence number.
unfoldable pub crypto_fields : List ℕ → ℕ → ℕ → ℕ → List ℕ
crypto_fields p key_id len sequence =
    let q = set (set (set (set p 14 0) 15 2) 12 0) 13 0 in
    write_all q 16 (
      0
      ∷ 0
      ∷ key_id
      ∷ len
      ∷ (sequence / 16777216 % 256)
      ∷ (sequence / 65536 % 256)
      ∷ (sequence / 256 % 256)
      ∷ (sequence % 256)
      ∷ [])

unfoldable pub bytes_eq : List ℕ → List ℕ → Bool
bytes_eq [] [] = true
bytes_eq (a ∷ as_) (b ∷ bs) = a == b && bytes_eq as_ bs
bytes_eq _ _ = false

abbrev pub byte : List ℕ → ℕ → ℕ
byte p i = elim (drop i p) [ [] ↦ 0 | x ∷ rest ↦ x ]

-- `pkt_len < OSPF_HEADER_LEN || packet.len() < pkt_len + trailer_len`
abbrev pub bad_length : List ℕ → ℕ → Bool
bad_length packet trailer =
    ltb (from_be16 (byte packet 2) (byte packet 3)) 24
    || ltb (length packet) (from_be16 (byte packet 2) (byte packet 3) + trailer)

module _ (md5 : List ℕ → List ℕ) (hmac_sha : HmacAlgo → List ℕ → List ℕ → List ℕ) where
  abbrev pub seal_md5 : List ℕ → List ℕ → List ℕ
  seal_md5 key p = p ++ md5 (p ++ filled 16 key)

  abbrev pub seal_hmac : HmacAlgo → List ℕ → List ℕ → List ℕ
  seal_hmac algo key p = p ++ hmac_sha algo key (p ++ apad (digest_len algo))

  unfoldable pub apply_auth : List ℕ → AuthKey → ℕ → List ℕ
  apply_auth packet no_key sequence = packet
  apply_auth packet (password w) sequence =
      if ltb (length packet) 24
      then packet
      else write_all (set (set packet 14 0) 15 1) 16 (filled 8 w)
  apply_auth packet (md5_key key_id key) sequence =
      if ltb (length packet) 24
      then packet
      else seal_md5 key (crypto_fields packet key_id 16 sequence)
  apply_auth packet (hmac_key algo key_id key) sequence =
      if ltb (length packet) 24
      then packet
      else seal_hmac algo key (crypto_fields packet key_id (digest_len algo) sequence)

  -- The digest of the first `pkt_len` bytes is compared with what stands behind them.
  abbrev pub check_md5 : List ℕ → List ℕ → ℕ → Bool
  check_md5 packet key pkt_len =
      bytes_eq (take 16 (drop pkt_len packet)) (md5 (take pkt_len packet ++ filled 16 key))

  abbrev pub check_hmac : HmacAlgo → List ℕ → List ℕ → ℕ → Bool
  check_hmac algo packet key pkt_len =
      bytes_eq (take (digest_len algo) (drop pkt_len packet))
        (hmac_sha algo key (take pkt_len packet ++ apad (digest_len algo)))

  unfoldable pub verify_key : List ℕ → AuthKey → Bool
  verify_key packet no_key = true
  verify_key packet (password w) = bytes_eq (take 8 (drop 16 packet)) (filled 8 w)
  verify_key packet (md5_key key_id key) =
      if not (byte packet 18 == key_id) || not (byte packet 19 == 16) || bad_length packet 16
      then false
      else check_md5 packet key (from_be16 (byte packet 2) (byte packet 3))
  verify_key packet (hmac_key algo key_id key) =
      if not (byte packet 18 == key_id)
        || not (byte packet 19 == digest_len algo)
        || bad_length packet (digest_len algo)
      then false
      else check_hmac algo packet key (from_be16 (byte packet 2) (byte packet 3))

  unfoldable pub verify_auth : List ℕ → AuthKey → Bool
  verify_auth packet key =
      if ltb (length packet) 24
      then false
      else (if from_be16 (byte packet 14) (byte packet 15) == au_type_to_u16 (key_au_type key)
          then verify_key packet key
          else false)
