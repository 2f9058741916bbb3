-- ===== src/PacketV3/Exchange.antt =====
-- The database exchange packets: src/packet_v3/dd.rs, lsr.rs, lsack.rs and lsu.rs.
pub mod RoundTrip
use Prim.Native.Nat.{bit_and}
use ospfd.Common.{
  slice_at, ℕ, zero, suc, ◌+◌, ◌%◌, ◌^◌, Bool, not, ◌||◌, List, [], ◌∷◌, ◌++◌, length, take, drop,
  ltb, ◌==◌, if◌then◌else◌, Ipv4Addr, be16, be32, u8_at, u16_at, u32_at, Outcome, ok, err,
  too_short, ◌>>=◌,
}
use ospfd.Packet.Each.{parse_each, encode_each}
use ospfd.PacketV3.Bits24.{u24_at, be24}
use ospfd.PacketV3.Lsa.{
  LsaV3Type, LsaV3Header, to_u16, from_u16, lsa_v3_type_or, lsa_v3_header_len, parse_lsa_v3_header,
  encode_lsa_v3_header,
}

abbrev pub dd_v3_min_len : ℕ
dd_v3_min_len = 12

pub record DbDescV3Packet : Type 0 where
  pub options : ℕ
  pub interface_mtu : ℕ
  pub flags : ℕ
  pub dd_sequence_number : ℕ
  pub lsa_headers : List LsaV3Header

unfoldable pub is_master_v3 : DbDescV3Packet → Bool
is_master_v3 p = not (bit_and p.flags 0x01 == 0)

unfoldable pub has_more_v3 : DbDescV3Packet → Bool
has_more_v3 p = not (bit_and p.flags 0x02 == 0)

unfoldable pub is_init_v3 : DbDescV3Packet → Bool
is_init_v3 p = not (bit_and p.flags 0x04 == 0)

unfoldable pub parse_dd_v3 : List ℕ → Outcome DbDescV3Packet
parse_dd_v3 data_ =
    if ltb (length data_) dd_v3_min_len then err (too_short dd_v3_min_len (length data_)) else do
      opts ← u24_at data_ 1
      mtu ← u16_at data_ 4
      fl ← u8_at data_ 7
      seq ← u32_at data_ 8
      headers ← parse_each lsa_v3_header_len parse_lsa_v3_header (drop dd_v3_min_len data_)
      ok (record {
        options = opts;
        interface_mtu = mtu;
        flags = fl;
        dd_sequence_number = seq;
        lsa_headers = headers;
      })

unfoldable pub encode_dd_v3 : DbDescV3Packet → List ℕ
encode_dd_v3 p =
    0
    ∷ (be24 p.options
        ++ (be16 p.interface_mtu
            ++ (0
                ∷ p.flags
                ∷ (be32 p.dd_sequence_number ++ encode_each encode_lsa_v3_header p.lsa_headers))))

abbrev pub ls_request_v3_entry_len : ℕ
ls_request_v3_entry_len = 12

pub record LsRequestV3 : Type 0 where
  pub ls_type : LsaV3Type
  pub link_state_id : Ipv4Addr
  pub advertising_router : Ipv4Addr

unfoldable pub parse_request_v3 : List ℕ → Outcome LsRequestV3
parse_request_v3 data_ =
    if ltb (length data_) ls_request_v3_entry_len
    then err (too_short ls_request_v3_entry_len (length data_))
    else do
      code ← u16_at data_ 2
      kind ← lsa_v3_type_or code (from_u16 code)
      id ← u32_at data_ 4
      adv ← u32_at data_ 8
      ok (record { ls_type = kind; link_state_id = id; advertising_router = adv })

unfoldable pub encode_request_v3 : LsRequestV3 → List ℕ
encode_request_v3 r =
    0 ∷ 0 ∷ (be16 (to_u16 r.ls_type) ++ (be32 r.link_state_id ++ be32 r.advertising_router))

pub record LsRequestV3Packet : Type 0 where
  pub requests : List LsRequestV3

unfoldable pub parse_lsr_v3 : List ℕ → Outcome LsRequestV3Packet
parse_lsr_v3 data_ = do
  rs ← parse_each ls_request_v3_entry_len parse_request_v3 data_
  ok (record { requests = rs })

unfoldable pub encode_lsr_v3 : LsRequestV3Packet → List ℕ
encode_lsr_v3 p = encode_each encode_request_v3 p.requests

pub record LsAckV3Packet : Type 0 where
  pub headers : List LsaV3Header

unfoldable pub parse_ack_v3 : List ℕ → Outcome LsAckV3Packet
parse_ack_v3 data_ = do
  hs ← parse_each lsa_v3_header_len parse_lsa_v3_header data_
  ok (record { headers = hs })

unfoldable pub encode_ack_v3 : LsAckV3Packet → List ℕ
encode_ack_v3 p = encode_each encode_lsa_v3_header p.headers

abbrev pub lsu_v3_min_len : ℕ
lsu_v3_min_len = 4

pub record LsaV3Raw : Type 0 where
  pub header : LsaV3Header
  pub raw : List ℕ

pub record LsUpdateV3Packet : Type 0 where
  pub lsas : List LsaV3Raw

-- The rounds left of `for _ in 0..count`, the offset, and `data[off..]`.
unfoldable pub parse_raws : ℕ → ℕ → List ℕ → Outcome (List LsaV3Raw)
parse_raws zero off d = ok []
parse_raws (suc n) off d =
    if ltb (length d) lsa_v3_header_len
    then err (too_short (off + lsa_v3_header_len) (off + length d))
    else do
      h ← parse_lsa_v3_header d
      let rest = parse_raws n (off + h.length) (drop h.length d)
      if ltb (length d) h.length || ltb h.length lsa_v3_header_len
          then err (too_short (off + h.length) (off + length d))
          else do raw ← slice_at d 0 h.length; ls ← rest; ok (record { header = h; raw = raw } ∷ ls)

unfoldable pub parse_lsu_v3 : List ℕ → Outcome LsUpdateV3Packet
parse_lsu_v3 data_ =
    if ltb (length data_) lsu_v3_min_len then err (too_short lsu_v3_min_len (length data_)) else do
      count ← u32_at data_ 0
      ls ← parse_raws count lsu_v3_min_len (drop lsu_v3_min_len data_)
      ok (record { lsas = ls })

unfoldable pub encode_raws : List LsaV3Raw → List ℕ
encode_raws [] = []
encode_raws (l ∷ ls) = l.raw ++ encode_raws ls

-- `self.lsas.len() as u32`
unfoldable pub encode_lsu_v3 : LsUpdateV3Packet → List ℕ
encode_lsu_v3 p = be32 (length p.lsas % 2 ^ 32) ++ encode_raws p.lsas
