-- ===== src/Packet/Seal.antt =====
-- The checksum of a whole packet: `set_ospf_checksum` and `verify_ospf_checksum`
-- (src/packet/mod.rs, lines 155-191).
pub mod Verified
use ospfd.Common.{
  ℕ, zero, suc, ◌/◌, ◌%◌, Bool, true, false, List, [], ◌∷◌, ◌++◌, length, set, take, drop, ltb,
  ◌==◌, if◌then◌else◌,
}
use ospfd.Packet.Checksum.Ip.{ip_checksum}

-- The authentication field, bytes 16 to 23, replaced by the eight bytes given.
abbrev put_auth : List ℕ → List ℕ → List ℕ
put_auth packet auth = take 16 packet ++ (auth ++ drop 24 packet)

abbrev zero_auth : List ℕ
zero_auth = 0 ∷ 0 ∷ 0 ∷ 0 ∷ 0 ∷ 0 ∷ 0 ∷ 0 ∷ []

-- The body of `set_ospf_checksum`, behind its length guard.
unfoldable pub write_checksum : List ℕ → List ℕ
write_checksum packet =
    let cleared = set (set packet 12 0) 13 0 in
    let auth_save = take 8 (drop 16 cleared) in
    let blank = put_auth cleared zero_auth in
    let cksum = ip_checksum blank in
    put_auth (set (set blank 12 (cksum / 256 % 256)) 13 (cksum % 256)) auth_save

unfoldable pub set_ospf_checksum : List ℕ → List ℕ
set_ospf_checksum packet = if ltb (length packet) 24 then packet else write_checksum packet

-- `copy[16..24].fill(0)`, on a copy.
unfoldable pub without_auth : List ℕ → List ℕ
without_auth packet = put_auth packet zero_auth

unfoldable pub verify_ospf_checksum : List ℕ → Bool
verify_ospf_checksum packet =
    if ltb (length packet) 24 then false else ip_checksum (without_auth packet) == 0
