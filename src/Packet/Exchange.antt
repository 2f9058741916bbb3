-- ===== src/Packet/Exchange.antt =====
-- The packets of the database exchange: Database Description (src/packet/dd.rs), Link State
-- Request (src/packet/lsr.rs), Link State Update (src/packet/lsu.rs) and Link State
-- Acknowledgement (the end of src/packet/lsa.rs).
pub mod RoundTrip
use Prim.Native.Nat.{bit_and}
use ospfd.Common.{
  ℕ, zero, suc, ◌%◌, ◌^◌, Bool, true, false, not, List, [], ◌∷◌, ◌++◌, length, drop, ltb, leb, ◌==◌,
  if◌then◌else◌, Ipv4Addr, be16, be32, u8_at, u16_at, u32_at, Outcome, ok, err, too_short, ◌>>=◌,
}
use ospfd.Packet.Each.{parse_each, encode_each}
use ospfd.Packet.Hello.{OspfOptions}
use ospfd.Packet.Lsa.Header
use ospfd.Packet.Lsa.Header.{LsaType, LsaHeader, lsa_header_len, lsa_type_or}
use ospfd.Packet.Lsa.Codec
use ospfd.Packet.Lsa.Codec.{Lsa, wire_size}

pub record DbDescPacket : Type 0 where
  pub interface_mtu : ℕ
  pub options : OspfOptions
  pub flags : ℕ
  pub dd_sequence_number : ℕ
  pub lsa_headers : List LsaHeader

-- DD_FLAG_MS is 0x01, DD_FLAG_M 0x02 and DD_FLAG_I 0x04.
unfoldable pub is_master : DbDescPacket → Bool
is_master p = not (bit_and p.flags 0x01 == 0)

unfoldable pub has_more : DbDescPacket → Bool
has_more p = not (bit_and p.flags 0x02 == 0)

unfoldable pub is_init : DbDescPacket → Bool
is_init p = not (bit_and p.flags 0x04 == 0)

abbrev pub dd_min_len : ℕ
dd_min_len = 8

unfoldable pub parse_dd : List ℕ → Outcome DbDescPacket
parse_dd data_ =
    if ltb (length data_) dd_min_len then err (too_short dd_min_len (length data_)) else do
      mtu ← u16_at data_ 0
      opts ← u8_at data_ 2
      fl ← u8_at data_ 3
      seq ← u32_at data_ 4
      headers ← parse_each lsa_header_len Header.parse (drop dd_min_len data_)
      ok (record {
        interface_mtu = mtu;
        options = opts;
        flags = fl;
        dd_sequence_number = seq;
        lsa_headers = headers;
      })

unfoldable pub encode_dd : DbDescPacket → List ℕ
encode_dd p =
    be16 p.interface_mtu
    ++ (p.options
        ∷ p.flags
        ∷ (be32 p.dd_sequence_number ++ encode_each Header.encode p.lsa_headers))

pub record LsRequest : Type 0 where
  pub ls_type : LsaType
  pub link_state_id : Ipv4Addr
  pub advertising_router : Ipv4Addr

abbrev pub ls_request_entry_len : ℕ
ls_request_entry_len = 12

-- The type is a u32 on the wire, of which the low byte counts.
unfoldable pub parse_request : List ℕ → Outcome LsRequest
parse_request data_ =
    if ltb (length data_) ls_request_entry_len
    then err (too_short ls_request_entry_len (length data_))
    else do
      code ← u32_at data_ 0
      kind ← lsa_type_or (code % 256) (Header.from_u8 (code % 256))
      id ← u32_at data_ 4
      adv ← u32_at data_ 8
      ok (record { ls_type = kind; link_state_id = id; advertising_router = adv })

unfoldable pub encode_request : LsRequest → List ℕ
encode_request r =
    be32 (Header.to_u8 r.ls_type) ++ (be32 r.link_state_id ++ be32 r.advertising_router)

pub record LsRequestPacket : Type 0 where
  pub requests : List LsRequest

unfoldable pub parse_lsr : List ℕ → Outcome LsRequestPacket
parse_lsr data_ = do
  rs ← parse_each ls_request_entry_len parse_request data_
  ok (record { requests = rs })

unfoldable pub encode_lsr : LsRequestPacket → List ℕ
encode_lsr p = encode_each encode_request p.requests

pub record LsAckPacket : Type 0 where
  pub lsa_headers : List LsaHeader

unfoldable pub parse_ack : List ℕ → Outcome LsAckPacket
parse_ack data_ = do
  headers ← parse_each lsa_header_len Header.parse data_
  ok (record { lsa_headers = headers })

unfoldable pub encode_ack : LsAckPacket → List ℕ
encode_ack p = encode_each Header.encode p.lsa_headers

pub record LsUpdatePacket : Type 0 where
  pub lsas : List Lsa

-- The rounds left of `for _ in 0..num_lsas`, and `data[off..]`, empty once `off >= data.len()`.
unfoldable pub parse_lsas : ℕ → List ℕ → Outcome (List Lsa)
parse_lsas zero d = ok []
parse_lsas (suc n) d = elim (leb (length d) 0) [
  | true ↦ ok []
  | false ↦ do lsa ← Codec.parse d; rest ← parse_lsas n (drop (wire_size lsa) d); ok (lsa ∷ rest)
]

unfoldable pub parse_lsu : List ℕ → Outcome LsUpdatePacket
parse_lsu data_ = if ltb (length data_) 4 then err (too_short 4 (length data_)) else do
  num_lsas ← u32_at data_ 0
  ls ← parse_lsas num_lsas (drop 4 data_)
  ok (record { lsas = ls })

unfoldable pub encode_lsas : List Lsa → Outcome (List ℕ)
encode_lsas [] = ok []
encode_lsas (l ∷ ls) = do bytes ← Codec.encode l; rest ← encode_lsas ls; ok (bytes ++ rest)

-- `lsas.len() as u32`
unfoldable pub encode_lsu : LsUpdatePacket → Outcome (List ℕ)
encode_lsu p = do bytes ← encode_lsas p.lsas; ok (be32 (length p.lsas % 2 ^ 32) ++ bytes)
