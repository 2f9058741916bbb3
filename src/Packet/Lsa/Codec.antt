-- ===== src/Packet/Lsa/Codec.antt =====
-- A complete LSA, header and typed body: `Lsa::parse`, `Lsa::encode`, `key` and `wire_size`
-- (src/packet/lsa.rs, lines 443-566).
pub mod RoundTrip
pub mod Checked
use ospfd.Common.{
  ℕ, ◌+◌, ◌-◌, ◌/◌, ◌%◌, ◌<◌, min, List, ◌++◌, length, drop, take, set, ltb, if◌then◌else◌, Outcome,
  ok, err, fault, panic, too_short, ◌>>=◌,
}
use ospfd.Packet.Checksum.Fletcher.{fletcher16}
use ospfd.Packet.Lsa.Header
use ospfd.Packet.Lsa.Header.{
  LsaHeader, LsaType, LsaKey, router, network, summary_network, summary_asbr, as_external,
  lsa_header_len,
}
use ospfd.Packet.Lsa.Body.{
  LsaBody, parse_router, parse_network, parse_summary, parse_external, encode_router,
  encode_network, encode_summary, encode_external,
}

pub record Lsa : Type 0 where
  pub header : LsaHeader
  pub body : LsaBody

-- `match header.ls_type`, on the bytes of the body.
unfoldable pub parse_body : LsaType → List ℕ → Outcome LsaBody
parse_body router d = do r ← parse_router d; ok (LsaBody.router r)
parse_body network d = do n ← parse_network d; ok (LsaBody.network n)
parse_body summary_network d = do s ← parse_summary d; ok (LsaBody.summary s)
parse_body summary_asbr d = do s ← parse_summary d; ok (LsaBody.summary s)
parse_body as_external d = do x ← parse_external d; ok (LsaBody.as_external x)

-- The slice of the body: from byte 20, as far as `length` says and the data go.
abbrev pub body_data : List ℕ → LsaHeader → List ℕ
body_data data_ h =
    take (min (h.length - lsa_header_len) (length data_ - lsa_header_len))
      (drop lsa_header_len data_)

unfoldable pub parse : List ℕ → Outcome Lsa
parse data_ = do
  h ← Header.parse data_
  if ltb h.length lsa_header_len
      then err (too_short lsa_header_len h.length)
      else do b ← parse_body h.ls_type (body_data data_ h); ok (record { header = h; body = b })

unfoldable pub encode_body : LsaBody → List ℕ
encode_body (LsaBody.router r) = encode_router r
encode_body (LsaBody.network n) = encode_network n
encode_body (LsaBody.summary s) = encode_summary s
encode_body (LsaBody.as_external x) = encode_external x
encode_body (LsaBody.opaque bytes) = bytes

-- `buf[18]` and `buf[19]` take the length, and `buf[16]` and `buf[17]` then the checksum over all
-- but the age.
unfoldable pub fix_length : List ℕ → List ℕ
fix_length buf = set (set buf 18 (length buf / 256 % 256)) 19 (length buf % 256)

unfoldable pub fix_checksum : List ℕ → List ℕ
fix_checksum buf = let (c1, c2) = fletcher16 (drop 2 buf) 14 in set (set buf 16 c1) 17 c2

-- `expect`: a total length above `u16::MAX` panics.
unfoldable pub encode : Lsa → Outcome (List ℕ)
encode l =
    let buf = Header.encode l.header ++ encode_body l.body in
    if ltb 65535 (length buf) then fault panic else ok (fix_checksum (fix_length buf))

abbrev pub key : Lsa → LsaKey
key l = Header.key l.header

abbrev pub wire_size : Lsa → ℕ
wire_size l = l.header.length
