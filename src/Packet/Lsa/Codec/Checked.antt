-- ===== src/Packet/Lsa/Codec/Checked.antt =====
-- The checksum of an encoded LSA verifies.
use ospfd.Common.{
  ℕ, ◌+◌, ◌%◌, ◌/◌, ◌≤◌, ◌≡◌, sym, ap, ◌∙◌, arith, Bool, true, false, List, [], ◌∷◌, ◌++◌, All,
  All-append, length, drop, IsU8, be16, be32, if◌then◌else◌, ok,
}
use ospfd.Packet.Addresses.{encode_addresses}
use ospfd.Packet.Checksum.Fletcher.{fletcher16_verify}
use ospfd.Packet.Checksum.Fletcher.Correct.{fletcher16_verify-fletcher16}
use ospfd.Packet.Lsa.Header
use ospfd.Packet.Lsa.Header.{
  LsaHeader, LsaType, IsHeader, router, network, summary_network, summary_asbr, as_external,
  lsa_header_len,
}
use ospfd.Packet.Lsa.Body.{
  LsaBody, RouterLink, RouterLinkType, point_to_point, link_type_to_u8, encode_link, encode_links,
  encode_router, encode_network, encode_summary, encode_external,
}
use ospfd.Packet.Lsa.Body.RoundTrip.{IsLink}
use ospfd.Packet.Lsa.Codec.{Lsa, encode_body, encode, fix_checksum}
use ospfd.Packet.Lsa.Codec.RoundTrip.{IsBodyOf, encode_lem, with_length, fix_checksum_lem}

be32-IsU8 : (n : ℕ) → All IsU8 (be32 n)
be32-IsU8 n = omega arith

addresses-IsU8 : (l : List ℕ) → All IsU8 (encode_addresses l)
unfolding encode_addresses
addresses-IsU8 [] = tt
addresses-IsU8 (a ∷ l) = All-append IsU8 (be32 a) _ (be32-IsU8 a) (addresses-IsU8 l)

link_type-IsU8 : (t : RouterLinkType) → IsU8 (link_type_to_u8 t)
link_type-IsU8 point_to_point = omega arith
link_type-IsU8 _ = omega arith

link-IsU8 : (l : RouterLink) → IsLink l → All IsU8 (encode_link l)
unfolding encode_link
link-IsU8 l v = omega (arith, link_type-IsU8 l.link_type, v.only_tos_0)

links-IsU8 : (ls : List RouterLink) → All IsLink ls → All IsU8 (encode_links ls)
unfolding encode_links
links-IsU8 [] v = tt
links-IsU8 (l ∷ ls) v = All-append IsU8 (encode_link l) _ (link-IsU8 l v.0) (links-IsU8 ls v.1)

e_bit-IsU8 : (b : Bool) → IsU8 (if b then 128 else 0)
e_bit-IsU8 true = omega arith
e_bit-IsU8 false = omega arith

body-IsU8 : (t : LsaType) (b : LsaBody) → IsBodyOf t b → All IsU8 (encode_body b)
unfolding encode_body encode_router encode_network encode_summary encode_external
body-IsU8 router (LsaBody.router r) v =
    (v.flags, (omega arith, (omega arith, (omega arith, links-IsU8 r.links v.links))))
body-IsU8 network (LsaBody.network n) v =
    All-append IsU8 (be32 n.network_mask) _ (be32-IsU8 n.network_mask)
      (addresses-IsU8 n.attached_routers)
body-IsU8 summary_network (LsaBody.summary s) v = omega arith
body-IsU8 summary_asbr (LsaBody.summary s) v = omega arith
body-IsU8 as_external (LsaBody.as_external x) v = omega (arith, e_bit-IsU8 x.metric_type_2)
body-IsU8 _ _ v = absurd v

to_u8-IsU8 : (t : LsaType) → IsU8 (Header.to_u8 t)
to_u8-IsU8 router = omega arith
to_u8-IsU8 _ = omega arith

-- The header from its third byte to the checksum, and the checksummed part behind it.
covered : LsaHeader → List ℕ
covered h =
    h.options
    ∷ Header.to_u8 h.ls_type
    ∷ (be32 h.link_state_id ++ (be32 h.advertising_router ++ be32 h.ls_sequence_number))

covered-IsU8 : (h : LsaHeader) → IsHeader h → All IsU8 (covered h)
unfolding covered
covered-IsU8 h v = omega (arith, to_u8-IsU8 h.ls_type)

-- Every byte behind the age of an encoded LSA of at most 4105 bytes is under a checksum that
-- `fletcher16_verify` accepts.
pub lsa_checksum_verifies :
    (l : Lsa)
    → IsHeader l.header
    → IsBodyOf l.header.ls_type l.body
    → lsa_header_len + length (encode_body l.body) ≤ 4105
    → (bytes : List ℕ) × (encode l ≡ ok bytes) × (fletcher16_verify (drop 2 bytes) ≡ true)
unfolding fix_checksum Header.encode covered
lsa_checksum_verifies l v b small =
    let h = with_length l in
    let body = encode_body l.body in
    let back = be16 h.length ++ body in
    let accepted =
      fletcher16_verify-fletcher16 (covered h) back (h.ls_checksum / 256 % 256)
        (h.ls_checksum % 256) (covered-IsU8 l.header v)
        (All-append IsU8 (be16 h.length) body (omega arith) (body-IsU8 l.header.ls_type l.body b))
        (omega arith) in
    (
      fix_checksum (Header.encode h ++ body),
      encode_lem l (omega arith) ∙ ap ok (sym (fix_checksum_lem l)),
      accepted.0,
    )
