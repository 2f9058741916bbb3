-- ===== src/Packet/Addresses.antt =====
-- A run of IPv4 addresses to the end of a slice: the loops `while off + 4 <= data.len()` of
-- HelloPacket::parse (src/packet/hello.rs) and of NetworkLsa::parse (src/packet/lsa.rs).
use ospfd.Common.{
  ℕ, ◌*◌, ◌≡◌, refl, arith, List, [], ◌∷◌, ◌++◌, length, All, IsU32, Ipv4Addr, from_be32, be32,
  from_be32-be32,
}

-- One to three bytes at the end are left over.
unfoldable pub addresses : List ℕ → List Ipv4Addr
addresses (a ∷ b ∷ c ∷ d ∷ rest) = from_be32 a b c d ∷ addresses rest
addresses _ = []

unfoldable pub encode_addresses : List Ipv4Addr → List ℕ
encode_addresses [] = []
encode_addresses (a ∷ as_) = be32 a ++ encode_addresses as_

pub addresses-encode_addresses :
    (l : List Ipv4Addr) → All IsU32 l → addresses (encode_addresses l) ≡ l
unfolding addresses encode_addresses
addresses-encode_addresses [] h = refl
addresses-encode_addresses (a ∷ l) h = rw (addresses-encode_addresses l h.1, from_be32-be32 a h.0)

pub length-encode_addresses : (l : List Ipv4Addr) → length (encode_addresses l) ≡ 4 * length l
unfolding encode_addresses
length-encode_addresses [] = omega arith
length-encode_addresses (a ∷ l) = omega (arith, length-encode_addresses l)
