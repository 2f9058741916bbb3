-- ===== src/PacketV3/Bodies/RoundTrip.antt =====
-- The LSA bodies of version 3 are read back from what is written.
use ospfd.Common.{
  ℕ, ◌≡◌, refl, arith, List, ◌++◌, All, length, length-append, take, drop, take-length_append,
  drop-length_append, ltb-false, IsU16, IsU32, be32, from_be16-be16, from_be32-be32, ok, ◌>>=◌,
}
use mathlib.Core.Path.{subst}
use mathlib.Core.List.{append_assoc}
use native.Mathlib.Nat.{mod-eq_of_lt}
use ospfd.Packet.Addresses.{addresses-encode_addresses}
use ospfd.Packet.Each.{Codec, parse_each-encode_each}
use ospfd.PacketV3.Bits24.{IsU24, from_be24-be24}
use ospfd.PacketV3.Prefix.RoundTrip.{
  IsPrefix, encode_prefix_lem, parse_prefix-prefix_bytes, all_bytes, encode_prefixes_lem,
  parse_prefixes-all_bytes,
}
use ospfd.PacketV3.Bodies.{
  RouterLinkV3, RouterLsaV3, NetworkLsaV3, LinkLsaV3, IntraAreaPrefixLsaV3, InterAreaPrefixLsaV3,
  parse_link_v3, encode_link_v3, parse_router_v3, encode_router_v3, parse_network_v3,
  encode_network_v3, parse_link_lsa_v3, encode_link_lsa_v3, parse_intra_v3, encode_intra_v3,
  parse_inter_v3, encode_inter_v3,
}

pub record IsLinkV3 (l : RouterLinkV3) : Type 0 where
  pub metric : IsU16 l.metric
  pub interface_id : IsU32 l.interface_id
  pub neighbor_interface_id : IsU32 l.neighbor_interface_id
  pub neighbor_router_id : IsU32 l.neighbor_router_id

length-encode_link_v3 : (l : RouterLinkV3) → length (encode_link_v3 l) ≡ 16
unfolding encode_link_v3
length-encode_link_v3 l = refl

parse_link_v3-encode_link_v3 :
    (l : RouterLinkV3) (rest : List ℕ)
    → IsLinkV3 l
    → parse_link_v3 (encode_link_v3 l ++ rest) ≡ ok l
unfolding parse_link_v3 encode_link_v3
parse_link_v3-encode_link_v3 l rest v = rw (
  ltb-false (length (encode_link_v3 l ++ rest)) 16
      (omega (arith, length-append (encode_link_v3 l) rest, length-encode_link_v3 l)),
  from_be16-be16 l.metric v.metric,
  from_be32-be32 l.interface_id v.interface_id,
  from_be32-be32 l.neighbor_interface_id v.neighbor_interface_id,
  from_be32-be32 l.neighbor_router_id v.neighbor_router_id,
)

IsLinkV3-codec : Codec 16 parse_link_v3 encode_link_v3 IsLinkV3
IsLinkV3-codec = record {
  some_bytes = omega arith;
  width = length-encode_link_v3;
  inverse = parse_link_v3-encode_link_v3;
}

-- A version 3 Router-LSA body with options of 24 bits is read back from its bytes.
pub parse_router_v3-encode_router_v3 :
    (r : RouterLsaV3)
    → IsU24 r.options
    → All IsLinkV3 r.links
    → parse_router_v3 (encode_router_v3 r) ≡ ok r
unfolding parse_router_v3 encode_router_v3
parse_router_v3-encode_router_v3 r o v = ground (
  arith,
  from_be24-be24 r.options o,
  parse_each-encode_each 16 parse_link_v3 encode_link_v3 IsLinkV3 IsLinkV3-codec r.links v,
)

-- A version 3 Network-LSA body with options of 24 bits is read back from its bytes.
pub parse_network_v3-encode_network_v3 :
    (n : NetworkLsaV3)
    → IsU24 n.options
    → All IsU32 n.attached_routers
    → parse_network_v3 (encode_network_v3 n) ≡ ok n
unfolding parse_network_v3 encode_network_v3
parse_network_v3-encode_network_v3 n o v =
    ground (arith, from_be24-be24 n.options o, addresses-encode_addresses n.attached_routers v)

pub record IsIntraV3 (l : IntraAreaPrefixLsaV3) : Type 0 where
  pub referenced_ls_type : IsU16 l.referenced_ls_type
  pub referenced_link_state_id : IsU32 l.referenced_link_state_id
  pub referenced_advertising_router : IsU32 l.referenced_advertising_router
  pub prefixes : All IsPrefix l.prefixes
  pub count : IsU16 (length l.prefixes)

-- An Intra-Area-Prefix-LSA body of fewer than 65536 prefixes, each of at most 128 bits with a blank
-- end, is written without a panic and read back.
pub parse_intra_v3-encode_intra_v3 :
    (l : IntraAreaPrefixLsaV3) → IsIntraV3 l → (encode_intra_v3 l >>= parse_intra_v3) ≡ ok l
unfolding parse_intra_v3 encode_intra_v3
parse_intra_v3-encode_intra_v3 l v =
    rw (encode_prefixes_lem l.prefixes v.prefixes, mod-eq_of_lt v.count)
      (ground (
        arith,
        from_be16-be16 (length l.prefixes) v.count,
        from_be16-be16 l.referenced_ls_type v.referenced_ls_type,
        from_be32-be32 l.referenced_link_state_id v.referenced_link_state_id,
        from_be32-be32 l.referenced_advertising_router v.referenced_advertising_router,
        parse_prefixes-all_bytes l.prefixes v.prefixes,
      ))

-- An Inter-Area-Prefix-LSA body with a metric of 24 bits and a prefix of at most 128 bits with a blank
-- end is written without a panic and read back, whatever bytes follow.
pub parse_inter_v3-encode_inter_v3 :
    (l : InterAreaPrefixLsaV3) (rest : List ℕ)
    → IsU24 l.metric
    → IsPrefix l.prefix
    → (encode_inter_v3 l >>= λ bytes. parse_inter_v3 (bytes ++ rest)) ≡ ok l
unfolding parse_inter_v3 encode_inter_v3
parse_inter_v3-encode_inter_v3 l rest m v =
    rw (encode_prefix_lem l.prefix v)
      (ground (arith, from_be24-be24 l.metric m, parse_prefix-prefix_bytes l.prefix rest v))

pub record IsLinkLsaV3 (l : LinkLsaV3) : Type 0 where
  pub options : IsU24 l.options
  pub octets : length l.link_local_address ≡ 16
  pub prefixes : All IsPrefix l.prefixes
  pub count : IsU32 (length l.prefixes)

behind_address : (address rest : List ℕ) → length address ≡ 16 → drop 16 (address ++ rest) ≡ rest
behind_address address rest e =
    subst (λ n. drop n (address ++ rest) ≡ rest) e (drop-length_append address rest)

behind_count :
    (address first rest : List ℕ)
    → length address ≡ 16
    → length first ≡ 4
    → drop 20 (address ++ (first ++ rest)) ≡ rest
behind_count address first rest e f =
    let all : length (address ++ first) ≡ 20 = omega (arith, length-append address first) in
    rw (← append_assoc address first rest) (
      subst (λ n. drop n ((address ++ first) ++ rest) ≡ rest) all
        (drop-length_append (address ++ first) rest))

the_address : (address rest : List ℕ) → length address ≡ 16 → take 16 (address ++ rest) ≡ address
the_address address rest e =
    subst (λ n. take n (address ++ rest) ≡ address) e (take-length_append address rest)

-- A Link-LSA body with an address of 16 octets, options of 24 bits and prefixes of at most 128 bits
-- with a blank end is written without a panic and read back.
pub parse_link_lsa_v3-encode_link_lsa_v3 :
    (l : LinkLsaV3) → IsLinkLsaV3 l → (encode_link_lsa_v3 l >>= parse_link_lsa_v3) ≡ ok l
unfolding parse_link_lsa_v3 encode_link_lsa_v3
parse_link_lsa_v3-encode_link_lsa_v3 l v =
    let ps = all_bytes l.prefixes in
    let n = be32 (length l.prefixes) in
    rw (encode_prefixes_lem l.prefixes v.prefixes, mod-eq_of_lt v.count)
      (ground (
        arith,
        length-append l.link_local_address (n ++ ps),
        from_be24-be24 l.options v.options,
        behind_address l.link_local_address (n ++ ps) v.octets,
        behind_count l.link_local_address n ps v.octets refl,
        the_address l.link_local_address (n ++ ps) v.octets,
        from_be32-be32 (length l.prefixes) v.count,
        parse_prefixes-all_bytes l.prefixes v.prefixes,
      ))
