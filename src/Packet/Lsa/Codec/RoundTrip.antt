-- ===== src/Packet/Lsa/Codec/RoundTrip.antt =====
-- A complete LSA is read back from what `encode` writes, with its length and checksum filled in.
use ospfd.Common.{
  ℕ, ◌+◌, ◌-◌, ◌≤◌, ◌≡◌, refl, arith, min, List, ◌++◌, length, drop, IsU8, ltb-false, from_be16,
  length-append, take-length_append, ok, ◌>>=◌,
}
use mathlib.Core.List.{append_assoc}
use ospfd.Common.Int.{ℤ, as_u8, pos, negsuc}
use ospfd.Packet.Checksum.Fletcher.{fletcher16, check_bytes}
use ospfd.Packet.Lsa.Header
use ospfd.Packet.Lsa.Header.{
  LsaHeader, LsaType, IsHeader, router, network, summary_network, summary_asbr, as_external,
  lsa_header_len,
}
use ospfd.Packet.Lsa.Header.RoundTrip.{header_parse-encode, length-encode}
use ospfd.Packet.Lsa.Body.{LsaBody}
use ospfd.Packet.Lsa.Body.RoundTrip.{
  IsRouter, IsNetwork, IsSummary, IsExternal, parse_router-encode_router,
  parse_network-encode_network, parse_summary-encode_summary, parse_external-encode_external,
}
use ospfd.Packet.Lsa.Codec.{
  Lsa, parse_body, body_data, parse, encode_body, fix_length, fix_checksum, encode,
}

-- The body is one that its LS type admits, and its fields fit their types.
abbrev pub IsBodyOf : LsaType → LsaBody → Type 0
IsBodyOf router (LsaBody.router r) = IsRouter r
IsBodyOf network (LsaBody.network n) = IsNetwork n
IsBodyOf summary_network (LsaBody.summary s) = IsSummary s
IsBodyOf summary_asbr (LsaBody.summary s) = IsSummary s
IsBodyOf as_external (LsaBody.as_external x) = IsExternal x
IsBodyOf _ _ = ⊥

parse_body-encode_body :
    (t : LsaType) (b : LsaBody) → IsBodyOf t b → parse_body t (encode_body b) ≡ ok b
unfolding parse_body encode_body
parse_body-encode_body router (LsaBody.router r) v = rw (parse_router-encode_router r v)
parse_body-encode_body network (LsaBody.network n) v = rw (parse_network-encode_network n v)
parse_body-encode_body summary_network (LsaBody.summary s) v = rw (parse_summary-encode_summary s v)
parse_body-encode_body summary_asbr (LsaBody.summary s) v = rw (parse_summary-encode_summary s v)
parse_body-encode_body as_external (LsaBody.as_external x) v =
    rw (parse_external-encode_external x v)
parse_body-encode_body _ _ v = absurd v

-- The header with the total length filled in, and then with the checksum.
abbrev pub with_length : Lsa → LsaHeader
with_length l = record (l.header) { length = lsa_header_len + length (encode_body l.body) }

abbrev pub lsa_checksum : Lsa → ℕ
lsa_checksum l =
    let (c1, c2) = fletcher16 (drop 2 (Header.encode (with_length l) ++ encode_body l.body)) 14 in
    from_be16 c1 c2

-- The LSA that `encode` puts on the wire.
abbrev pub finished : Lsa → Lsa
finished l = record l { header = record (with_length l) { ls_checksum = lsa_checksum l } }

as_u8-IsU8 : (v : ℤ) → IsU8 (as_u8 v)
as_u8-IsU8 (pos n) = omega arith
as_u8-IsU8 (negsuc n) = omega arith

fletcher16-IsU8 : (d : List ℕ) (n : ℕ) → IsU8 (fletcher16 d n).0 × IsU8 (fletcher16 d n).1
unfolding fletcher16 check_bytes
fletcher16-IsU8 d n = (as_u8-IsU8 _, as_u8-IsU8 _)

fix_length_lem :
    (l : Lsa)
    → fix_length (Header.encode l.header ++ encode_body l.body)
      ≡ Header.encode (with_length l) ++ encode_body l.body
unfolding fix_length Header.encode
fix_length_lem l = ground arith

pub fix_checksum_lem :
    (l : Lsa)
    → fix_checksum (Header.encode (with_length l) ++ encode_body l.body)
      ≡ Header.encode (finished l).header ++ encode_body l.body
unfolding fix_checksum Header.encode
fix_checksum_lem l =
    ground
      (arith, fletcher16-IsU8 (drop 2 (Header.encode (with_length l) ++ encode_body l.body)) 14)

pub encode_lem :
    (l : Lsa)
    → lsa_header_len + length (encode_body l.body) ≤ 65535
    → encode l ≡ ok (Header.encode (finished l).header ++ encode_body l.body)
unfolding encode
encode_lem l fits =
    let buf = Header.encode l.header ++ encode_body l.body in
    let small = ltb-false 65535 (length buf) (
      omega (
        arith,
        length-append (Header.encode l.header) (encode_body l.body),
        length-encode l.header,
      )) in
    ground (arith, small, fix_length_lem l, fix_checksum_lem l)

pub finished-IsHeader :
    (l : Lsa)
    → IsHeader l.header
    → lsa_header_len + length (encode_body l.body) ≤ 65535
    → IsHeader (finished l).header
finished-IsHeader l v fits =
    let (lo, hi) =
      fletcher16-IsU8 (drop 2 (Header.encode (with_length l) ++ encode_body l.body)) 14 in
    omega arith

drop-header : (h : LsaHeader) (rest : List ℕ) → drop lsa_header_len (Header.encode h ++ rest) ≡ rest
unfolding Header.encode
drop-header h rest = refl

body_data_lem :
    (h : LsaHeader) (b rest : List ℕ)
    → h.length ≡ lsa_header_len + length b
    → body_data (Header.encode h ++ (b ++ rest)) h ≡ b
body_data_lem h b rest e =
    let dropped = drop-header h (b ++ rest) in
    let size : min (h.length - lsa_header_len)
          (length (Header.encode h ++ (b ++ rest)) - lsa_header_len)
        ≡ length b =
      omega (
        arith,
        length-append (Header.encode h) (b ++ rest),
        length-append b rest,
        length-encode h,
      ) in
    cc (dropped, size, take-length_append b rest)

-- What `parse` makes of an encoded header with the right length and the body behind it.
pub parse_parts :
    (l : Lsa) (rest : List ℕ)
    → IsHeader l.header
    → IsBodyOf l.header.ls_type l.body
    → l.header.length ≡ lsa_header_len + length (encode_body l.body)
    → parse ((Header.encode l.header ++ encode_body l.body) ++ rest) ≡ ok l
unfolding parse
parse_parts l rest v b e =
    let h = l.header in
    let long = ltb-false h.length lsa_header_len (omega arith) in
    rw append_assoc (
      rw (header_parse-encode h (encode_body l.body ++ rest) v) (
        ground (
          arith,
          body_data_lem h (encode_body l.body) rest e,
          parse_body-encode_body h.ls_type l.body b,
          long,
        )))

-- An LSA whose header fields fit their types, with a body of its LS type and of at most 65535 bytes
-- altogether, is encoded without a panic; and `parse` reads from those bytes, whatever follows
-- them, the same LSA with its length and its checksum filled in. The fields of the body fit their
-- types, a Router-LSA has fewer than 2^16 links, each with no TOS entries (`num_tos` is 0), and the
-- metric of a Summary- or AS-external-LSA is below 2^24.
pub lsa_parse-encode :
    (l : Lsa) (rest : List ℕ)
    → IsHeader l.header
    → IsBodyOf l.header.ls_type l.body
    → lsa_header_len + length (encode_body l.body) ≤ 65535
    → (encode l >>= λ bytes. parse (bytes ++ rest)) ≡ ok (finished l)
lsa_parse-encode l rest v b fits =
    rw (encode_lem l fits) (parse_parts (finished l) rest (finished-IsHeader l v fits) b refl)
