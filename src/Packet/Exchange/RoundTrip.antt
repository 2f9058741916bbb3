-- ===== src/Packet/Exchange/RoundTrip.antt =====
-- The database exchange packets' codecs: what is written is read back.
use ospfd.Common.{
  ℕ, suc, ◌+◌, ◌≤◌, ◌<◌, ◌%◌, ◌≡◌, refl, arith, false, List, [], ◌∷◌, ◌++◌, map, All, length,
  length-append, drop, drop-length_append, leb, IsU8, IsU16, IsU32, from_be16-be16, from_be32-be32,
  ok, ◌>>=◌,
}
use native.Mathlib.Nat.{mod-eq_of_lt}
use ospfd.Packet.Each.{Codec, parse_each-encode_each}
use ospfd.Packet.Lsa.Header
use ospfd.Packet.Lsa.Header.{LsaHeader, LsaType, IsHeader, router, lsa_header_len}
use ospfd.Packet.Lsa.Header.RoundTrip.{from_u8-to_u8, length-encode, header_parse-encode}
use ospfd.Packet.Lsa.Codec
use ospfd.Packet.Lsa.Codec.{Lsa, wire_size, encode_body}
use ospfd.Packet.Lsa.Codec.RoundTrip.{
  IsBodyOf, finished, encode_lem, finished-IsHeader, parse_parts,
}
use ospfd.Packet.Exchange.{
  DbDescPacket, LsRequest, LsRequestPacket, LsAckPacket, LsUpdatePacket, ls_request_entry_len,
  parse_dd, encode_dd, parse_request, encode_request, parse_lsr, encode_lsr, parse_ack, encode_ack,
  parse_lsas, parse_lsu, encode_lsas, encode_lsu,
}

IsHeader-codec : Codec lsa_header_len Header.parse Header.encode IsHeader
IsHeader-codec = record {
  some_bytes = omega arith;
  width = length-encode;
  inverse = header_parse-encode;
}

pub record IsDd (p : DbDescPacket) : Type 0 where
  pub interface_mtu : IsU16 p.interface_mtu
  pub options : IsU8 p.options
  pub flags : IsU8 p.flags
  pub dd_sequence_number : IsU32 p.dd_sequence_number
  pub lsa_headers : All IsHeader p.lsa_headers

-- A Database Description with any number of LSA headers is read back from its bytes.
pub parse_dd-encode_dd : (p : DbDescPacket) → IsDd p → parse_dd (encode_dd p) ≡ ok p
unfolding parse_dd encode_dd
parse_dd-encode_dd p v = ground (
  arith,
  from_be16-be16 p.interface_mtu,
  from_be32-be32 p.dd_sequence_number,
  parse_each-encode_each lsa_header_len Header.parse Header.encode IsHeader IsHeader-codec
      p.lsa_headers v.lsa_headers,
)

pub record IsRequest (r : LsRequest) : Type 0 where
  pub link_state_id : IsU32 r.link_state_id
  pub advertising_router : IsU32 r.advertising_router

type_code : (t : LsaType) → Header.from_u8 (Header.to_u8 t % 256) ≡ Header.from_u8 (Header.to_u8 t)
type_code router = refl
type_code _ = refl

to_u8-lt : (t : LsaType) → Header.to_u8 t < 256
to_u8-lt router = omega arith
to_u8-lt _ = omega arith

length-encode_request : (r : LsRequest) → length (encode_request r) ≡ ls_request_entry_len
unfolding encode_request
length-encode_request r = refl

parse_request-encode_request :
    (r : LsRequest) (rest : List ℕ) → IsRequest r → parse_request (encode_request r ++ rest) ≡ ok r
unfolding parse_request encode_request
parse_request-encode_request r rest v = ground (
  arith,
  to_u8-lt r.ls_type,
  from_be32-be32 (Header.to_u8 r.ls_type),
  type_code r.ls_type,
  from_u8-to_u8 r.ls_type,
  from_be32-be32 r.link_state_id,
  from_be32-be32 r.advertising_router,
)

IsRequest-codec : Codec ls_request_entry_len parse_request encode_request IsRequest
IsRequest-codec = record {
  some_bytes = omega arith;
  width = length-encode_request;
  inverse = parse_request-encode_request;
}

-- A Link State Request is read back from its bytes.
pub parse_lsr-encode_lsr :
    (p : LsRequestPacket) → All IsRequest p.requests → parse_lsr (encode_lsr p) ≡ ok p
unfolding parse_lsr encode_lsr
parse_lsr-encode_lsr p v = rw (
    parse_each-encode_each ls_request_entry_len parse_request encode_request IsRequest
      IsRequest-codec p.requests v)

-- A Link State Acknowledgement is read back from its bytes.
pub parse_ack-encode_ack :
    (p : LsAckPacket) → All IsHeader p.lsa_headers → parse_ack (encode_ack p) ≡ ok p
unfolding parse_ack encode_ack
parse_ack-encode_ack p v = rw (
    parse_each-encode_each lsa_header_len Header.parse Header.encode IsHeader IsHeader-codec
      p.lsa_headers v)

-- An LSA that can be put on the wire.
pub record IsLsa (l : Lsa) : Type 0 where
  pub header : IsHeader l.header
  pub body : IsBodyOf l.header.ls_type l.body
  pub fits : lsa_header_len + length (encode_body l.body) ≤ 65535

wire : Lsa → List ℕ
wire l = Header.encode (finished l).header ++ encode_body l.body

wires : List Lsa → List ℕ
wires [] = []
wires (l ∷ ls) = wire l ++ wires ls

encode_lsas_lem : (ls : List Lsa) → All IsLsa ls → encode_lsas ls ≡ ok (wires ls)
unfolding encode_lsas wires wire
encode_lsas_lem [] v = refl
encode_lsas_lem (l ∷ ls) v = rw (encode_lem l v.0.fits) (rw (encode_lsas_lem ls v.1))

length-wire : (l : Lsa) → length (wire l) ≡ wire_size (finished l)
unfolding wire
length-wire l = omega (
  arith,
  length-append (Header.encode (finished l).header) (encode_body l.body),
  length-encode (finished l).header,
)

parse-wire : (l : Lsa) (rest : List ℕ) → IsLsa l → Codec.parse (wire l ++ rest) ≡ ok (finished l)
unfolding wire
parse-wire l rest v =
    parse_parts (finished l) rest (finished-IsHeader l v.header v.fits) v.body refl

parse_lsas_round :
    (n : ℕ) (l : Lsa) (rest : List ℕ) (ls : List Lsa)
    → IsLsa l
    → parse_lsas n rest ≡ ok ls
    → parse_lsas (suc n) (wire l ++ rest) ≡ ok (finished l ∷ ls)
unfolding parse_lsas
parse_lsas_round n l rest ls v e =
    let size = length-wire l in
    let some_bytes : leb (length (wire l ++ rest)) 0 ≡ false =
      ground (arith, length-append (wire l) rest) in
    let behind : drop (wire_size (finished l)) (wire l ++ rest) ≡ rest =
      rw (← size) (drop-length_append (wire l) rest) in
    rw (some_bytes, parse_lsas) (rw (parse-wire l rest v) (rw behind (rw e)))

parse_lsas-wires :
    (ls : List Lsa) → All IsLsa ls → parse_lsas (length ls) (wires ls) ≡ ok (map finished ls)
unfolding wires
parse_lsas-wires [] v = unfold parse_lsas in refl
parse_lsas-wires (l ∷ ls) v =
    parse_lsas_round (length ls) l (wires ls) (map finished ls) v.0 (parse_lsas-wires ls v.1)

-- A Link State Update is encoded without a panic, and read back with the length and the
-- checksum of each of its LSAs filled in.
pub parse_lsu-encode_lsu :
    (p : LsUpdatePacket)
    → All IsLsa p.lsas
    → IsU32 (length p.lsas)
    → (encode_lsu p >>= parse_lsu) ≡ ok (record { lsas = map finished p.lsas })
unfolding parse_lsu encode_lsu
parse_lsu-encode_lsu p v count = rw (encode_lsas_lem p.lsas v) (
    rw (mod-eq_of_lt count)
      (ground (arith, from_be32-be32 (length p.lsas) count, parse_lsas-wires p.lsas v)))
