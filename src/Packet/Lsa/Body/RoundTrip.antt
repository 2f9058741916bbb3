-- ===== src/Packet/Lsa/Body/RoundTrip.antt =====
-- The LSA bodies' codecs: each body is read back from the bytes that it is written as.
use ospfd.Common.{
  ℕ, suc, ◌+◌, ◌≤◌, ◌<◌, ◌^◌, ◌≡◌, refl, arith, some, List, [], ◌∷◌, ◌++◌, All, length, IsU8, IsU16,
  IsU32, ok, from_be16-be16, from_be32-be32, ltb-false, length-append, drop,
}
use native.Mathlib.Nat.{mod-eq_of_lt}
use ospfd.Packet.Addresses.{addresses-encode_addresses}
use ospfd.Packet.Lsa.Body.{
  RouterLinkType, RouterLink, RouterLsa, NetworkLsa, SummaryLsa, AsExternalLsa, point_to_point,
  link_type_to_u8, link_type_from_u8, wire_size, parse_link, encode_link, parse_links, encode_links,
  parse_router, encode_router, parse_network, encode_network, parse_summary, encode_summary,
  parse_external, encode_external,
}

pub record IsLink (l : RouterLink) : Type 0 where
  pub link_id : IsU32 l.link_id
  pub link_data : IsU32 l.link_data
  pub metric : IsU16 l.metric
  pub only_tos_0 : l.num_tos ≡ 0

-- Only links without TOS entries: `encode` writes none, whatever `num_tos` says.
pub record IsRouter (r : RouterLsa) : Type 0 where
  pub flags : IsU8 r.flags
  pub links : All IsLink r.links
  pub count : IsU16 (length r.links)

pub record IsNetwork (n : NetworkLsa) : Type 0 where
  pub network_mask : IsU32 n.network_mask
  pub attached_routers : All IsU32 n.attached_routers

pub record IsSummary (s : SummaryLsa) : Type 0 where
  pub network_mask : IsU32 s.network_mask
  pub metric : s.metric < 2 ^ 24

pub record IsExternal (x : AsExternalLsa) : Type 0 where
  pub network_mask : IsU32 x.network_mask
  pub metric : x.metric < 2 ^ 24
  pub forwarding_address : IsU32 x.forwarding_address
  pub external_route_tag : IsU32 x.external_route_tag

link_type_lem : (t : RouterLinkType) → link_type_from_u8 (link_type_to_u8 t) ≡ some t
link_type_lem point_to_point = refl
link_type_lem _ = refl

parse_link-encode_link :
    (l : RouterLink) (rest : List ℕ) → IsLink l → parse_link (encode_link l ++ rest) ≡ ok l
unfolding parse_link encode_link
parse_link-encode_link l rest v = rw (
  ltb-false (length (encode_link l ++ rest)) 12 (omega (arith, length-append (encode_link l) rest)),
  link_type_lem l.link_type,
  from_be32-be32 l.link_id v.link_id,
  from_be32-be32 l.link_data v.link_data,
  from_be16-be16 l.metric v.metric,
)

length_link_append :
    (l : RouterLink) (rest : List ℕ) → length (encode_link l ++ rest) ≡ 12 + length rest
unfolding encode_link
length_link_append l rest = omega arith

drop-encode_link :
    (l : RouterLink) (rest : List ℕ) → IsLink l → drop (wire_size l) (encode_link l ++ rest) ≡ rest
unfolding encode_link
drop-encode_link l rest v = rw (v.only_tos_0)

parse_links_step :
    (n : ℕ) (d : List ℕ) (l : RouterLink) (ls : List RouterLink)
    → 12 ≤ length d
    → parse_link d ≡ ok l
    → parse_links n (drop (wire_size l) d) ≡ ok ls
    → parse_links (suc n) d ≡ ok (l ∷ ls)
unfolding parse_links
parse_links_step n d l ls long p q = ground arith

parse_links-encode_links :
    (ls : List RouterLink) → All IsLink ls → parse_links (length ls) (encode_links ls) ≡ ok ls
unfolding encode_links
parse_links-encode_links [] h = unfold parse_links in refl
parse_links-encode_links (l ∷ ls) h =
    parse_links_step (length ls) (encode_link l ++ encode_links ls) l ls
      (omega (arith, length_link_append l (encode_links ls)))
      (parse_link-encode_link l (encode_links ls) h.0)
      (rw (drop-encode_link l (encode_links ls) h.0) (parse_links-encode_links ls h.1))

pub parse_router-encode_router :
    (r : RouterLsa) → IsRouter r → parse_router (encode_router r) ≡ ok r
unfolding parse_router encode_router
parse_router-encode_router r v = rw (mod-eq_of_lt v.count) (
    rw (from_be16-be16 (length r.links) v.count) (
      rw (ltb-false (suc (suc (suc (suc (length (encode_links r.links)))))) 4 (omega arith))
        (rw (parse_links-encode_links r.links v.links))))

pub parse_network-encode_network :
    (n : NetworkLsa) → IsNetwork n → parse_network (encode_network n) ≡ ok n
unfolding parse_network encode_network
parse_network-encode_network n v = rw (ltb-false (length (encode_network n)) 4 (omega arith)) (
    rw (from_be32-be32 n.network_mask v.network_mask)
      (rw (addresses-encode_addresses n.attached_routers v.attached_routers)))

pub parse_summary-encode_summary :
    (s : SummaryLsa) → IsSummary s → parse_summary (encode_summary s) ≡ ok s
unfolding parse_summary encode_summary
parse_summary-encode_summary s v = ground (arith, from_be32-be32 s.network_mask v.network_mask)

pub parse_external-encode_external :
    (x : AsExternalLsa) → IsExternal x → parse_external (encode_external x) ≡ ok x
unfolding parse_external encode_external
parse_external-encode_external x v = ground (
  arith,
  from_be32-be32 x.network_mask v.network_mask,
  from_be32-be32 x.forwarding_address v.forwarding_address,
  from_be32-be32 x.external_route_tag v.external_route_tag,
)
