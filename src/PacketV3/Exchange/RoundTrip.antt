-- ===== src/PacketV3/Exchange/RoundTrip.antt =====
-- The database exchange packets of version 3 are read back from what is written.
use ospfd.Common.{
  ℕ, ◌+◌, ◌≡◌, refl, sym, ap, ◌∙◌, arith, false, List, [], ◌∷◌, ◌++◌, All, length, length-append,
  take, drop, take-length_append, drop-length_append, ltb, ltb-false, IsU16, IsU32, from_be16-be16,
  from_be32-be32, ok,
}
use mathlib.Core.Path.{subst}
use mathlib.Core.List.{append_assoc}
use native.Mathlib.Nat.{mod-eq_of_lt}
use ospfd.Packet.Each.{Codec, parse_each-encode_each}
use ospfd.PacketV3.Bits24.{IsU24, from_be24-be24}
use ospfd.PacketV3.Lsa.{
  IsLsaV3Header, IsLsaV3Header-codec, to_u16, from_u16-to_u16, to_u16-IsU16, lsa_v3_header_len,
  parse_lsa_v3_header, encode_lsa_v3_header, parse_lsa_v3_header-encode_lsa_v3_header,
  length-encode_lsa_v3_header,
}
use ospfd.PacketV3.Exchange.{
  DbDescV3Packet, LsRequestV3, LsRequestV3Packet, LsAckV3Packet, LsaV3Raw, LsUpdateV3Packet,
  ls_request_v3_entry_len, parse_dd_v3, encode_dd_v3, parse_request_v3, encode_request_v3,
  parse_lsr_v3, encode_lsr_v3, parse_ack_v3, encode_ack_v3, parse_raws, parse_lsu_v3, encode_raws,
  encode_lsu_v3,
}

pub record IsDdV3 (p : DbDescV3Packet) : Type 0 where
  pub options : IsU24 p.options
  pub interface_mtu : IsU16 p.interface_mtu
  pub dd_sequence_number : IsU32 p.dd_sequence_number
  pub lsa_headers : All IsLsaV3Header p.lsa_headers

-- A version 3 Database Description with any number of LSA headers is read back from its bytes.
pub parse_dd_v3-encode_dd_v3 : (p : DbDescV3Packet) → IsDdV3 p → parse_dd_v3 (encode_dd_v3 p) ≡ ok p
unfolding parse_dd_v3 encode_dd_v3
parse_dd_v3-encode_dd_v3 p v = ground (
  arith,
  from_be24-be24 p.options v.options,
  from_be16-be16 p.interface_mtu v.interface_mtu,
  from_be32-be32 p.dd_sequence_number v.dd_sequence_number,
  parse_each-encode_each lsa_v3_header_len parse_lsa_v3_header encode_lsa_v3_header IsLsaV3Header
      IsLsaV3Header-codec p.lsa_headers v.lsa_headers,
)

pub record IsRequestV3 (r : LsRequestV3) : Type 0 where
  pub link_state_id : IsU32 r.link_state_id
  pub advertising_router : IsU32 r.advertising_router

length-encode_request_v3 :
    (r : LsRequestV3) → length (encode_request_v3 r) ≡ ls_request_v3_entry_len
unfolding encode_request_v3
length-encode_request_v3 r = refl

parse_request_v3-encode_request_v3 :
    (r : LsRequestV3) (rest : List ℕ)
    → IsRequestV3 r
    → parse_request_v3 (encode_request_v3 r ++ rest) ≡ ok r
unfolding parse_request_v3 encode_request_v3
parse_request_v3-encode_request_v3 r rest v = rw (
  ltb-false (length (encode_request_v3 r ++ rest)) 12
      (omega (arith, length-append (encode_request_v3 r) rest, length-encode_request_v3 r)),
  from_be16-be16 (to_u16 r.ls_type) (to_u16-IsU16 r.ls_type),
  from_u16-to_u16 r.ls_type,
  from_be32-be32 r.link_state_id v.link_state_id,
  from_be32-be32 r.advertising_router v.advertising_router,
)

IsRequestV3-codec : Codec ls_request_v3_entry_len parse_request_v3 encode_request_v3 IsRequestV3
IsRequestV3-codec = record {
  some_bytes = omega arith;
  width = length-encode_request_v3;
  inverse = parse_request_v3-encode_request_v3;
}

-- A version 3 Link State Request is read back from its bytes.
pub parse_lsr_v3-encode_lsr_v3 :
    (p : LsRequestV3Packet) → All IsRequestV3 p.requests → parse_lsr_v3 (encode_lsr_v3 p) ≡ ok p
unfolding parse_lsr_v3 encode_lsr_v3
parse_lsr_v3-encode_lsr_v3 p v = rw (
    parse_each-encode_each ls_request_v3_entry_len parse_request_v3 encode_request_v3 IsRequestV3
      IsRequestV3-codec p.requests v)

-- A version 3 Link State Acknowledgement is read back from its bytes.
pub parse_ack_v3-encode_ack_v3 :
    (p : LsAckV3Packet) → All IsLsaV3Header p.headers → parse_ack_v3 (encode_ack_v3 p) ≡ ok p
unfolding parse_ack_v3 encode_ack_v3
parse_ack_v3-encode_ack_v3 p v = rw (
    parse_each-encode_each lsa_v3_header_len parse_lsa_v3_header encode_lsa_v3_header IsLsaV3Header
      IsLsaV3Header-codec p.headers v)

-- The bytes of an LSA begin with its header, whose length is theirs.
pub record IsRaw (l : LsaV3Raw) : Type 0 where
  pub body : List ℕ
  pub header : IsLsaV3Header l.header
  pub bytes : l.raw ≡ encode_lsa_v3_header l.header ++ body
  pub whole : l.header.length ≡ length l.raw

raw_header :
    (l : LsaV3Raw) (rest : List ℕ) → IsRaw l → parse_lsa_v3_header (l.raw ++ rest) ≡ ok l.header
raw_header l rest v =
    let e : l.raw ++ rest ≡ encode_lsa_v3_header l.header ++ (v.body ++ rest) =
      ap (λ (x : List ℕ). x ++ rest) v.bytes
      ∙ append_assoc (encode_lsa_v3_header l.header) v.body rest in
    rw e (parse_lsa_v3_header-encode_lsa_v3_header l.header (v.body ++ rest) v.header)

parse_raws-encode_raws :
    (off : ℕ) (ls : List LsaV3Raw)
    → All IsRaw ls
    → parse_raws (length ls) off (encode_raws ls) ≡ ok ls
unfolding parse_raws encode_raws
parse_raws-encode_raws off [] v = refl
parse_raws-encode_raws off (l ∷ ls) v =
    let ih = parse_raws-encode_raws (off + l.header.length) ls v.1 in
    let size = length-append l.raw (encode_raws ls) in
    let wide = length-append (encode_lsa_v3_header l.header) v.0.body in
    let head = length-encode_lsa_v3_header l.header in
    let bytes = ap (λ (x : List ℕ). length x) v.0.bytes in
    let whole = v.0.whole in
    let long : ltb (length (l.raw ++ encode_raws ls)) 20 ≡ false = ltb-false _ _ (omega arith) in
    let inside : ltb (length (l.raw ++ encode_raws ls)) l.header.length ≡ false =
      ltb-false _ _ (omega arith) in
    let within : ltb (length (l.raw ++ encode_raws ls)) (0 + l.header.length) ≡ false =
      ltb-false _ _ (omega arith) in
    let enough : ltb l.header.length 20 ≡ false = ltb-false _ _ (omega arith) in
    let behind : drop l.header.length (l.raw ++ encode_raws ls) ≡ encode_raws ls =
      subst (λ n. drop n (l.raw ++ encode_raws ls) ≡ encode_raws ls) (sym whole)
        (drop-length_append l.raw (encode_raws ls)) in
    let taken : take l.header.length (l.raw ++ encode_raws ls) ≡ l.raw =
      subst (λ n. take n (l.raw ++ encode_raws ls) ≡ l.raw) (sym whole)
        (take-length_append l.raw (encode_raws ls)) in
    rw (long, raw_header l (encode_raws ls) v.0)
      (rw (inside, within, enough, behind, taken, ih) refl)

-- A version 3 Link State Update of fewer than 2^32 LSAs, each with its bytes and a header that tells
-- their number, is read back from its bytes.
pub parse_lsu_v3-encode_lsu_v3 :
    (p : LsUpdateV3Packet)
    → All IsRaw p.lsas
    → IsU32 (length p.lsas)
    → parse_lsu_v3 (encode_lsu_v3 p) ≡ ok p
unfolding parse_lsu_v3 encode_lsu_v3
parse_lsu_v3-encode_lsu_v3 p v count =
    rw (mod-eq_of_lt count)
      (ground (arith, from_be32-be32 (length p.lsas) count, parse_raws-encode_raws 4 p.lsas v))
