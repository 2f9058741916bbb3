-- ===== src/PacketV3/Lsa.antt =====
-- The LSA types and the 20-byte LSA header (src/packet_v3/lsa.rs, lines 37-158).
use ospfd.Common.{
  ℕ, ◌+◌, ◌≡◌, refl, arith, Option, none, some, List, ◌++◌, length, length-append, ltb, ltb-false,
  leb, ◌==◌, if◌then◌else◌, Ipv4Addr, IsU16, IsU32, be16, be32, from_be16-be16, from_be32-be32,
  u16_at, u32_at, Outcome, ok, err, fault, panic, too_short, bad_lsa_type, ◌>>=◌,
}
use ospfd.Packet.Each.{Codec}

abbrev pub lsa_v3_header_len : ℕ
lsa_v3_header_len = 20

-- `u16::try_from(…).expect(…)`
abbrev pub lsa_v3_total_length : ℕ → Outcome ℕ
lsa_v3_total_length body_len =
    if leb (lsa_v3_header_len + body_len) 65535
    then ok (lsa_v3_header_len + body_len)
    else fault panic

pub data LsaV3Type : Type 0 where
  router network inter_area_prefix inter_area_router as_external nssa link intra_area_prefix :
      LsaV3Type

abbrev pub to_u16 : LsaV3Type → ℕ
to_u16 router = 0x2001
to_u16 network = 0x2002
to_u16 inter_area_prefix = 0x2003
to_u16 inter_area_router = 0x2004
to_u16 as_external = 0x4005
to_u16 nssa = 0x2007
to_u16 link = 0x0008
to_u16 intra_area_prefix = 0x2009

abbrev pub from_u16 : ℕ → Option LsaV3Type
from_u16 v =
    if v == 0x2001
    then some router
    else (if v == 0x2002
        then some network
        else (if v == 0x2003
            then some inter_area_prefix
            else (if v == 0x2004
                then some inter_area_router
                else (if v == 0x4005
                    then some as_external
                    else (if v == 0x2007
                        then some nssa
                        else (if v == 0x0008
                            then some link
                            else (if v == 0x2009 then some intra_area_prefix else none)))))))

pub record LsaV3Header : Type 0 where
  pub ls_age : ℕ
  pub ls_type : LsaV3Type
  pub link_state_id : Ipv4Addr
  pub advertising_router : Ipv4Addr
  pub ls_sequence_number : ℕ
  pub ls_checksum : ℕ
  pub length : ℕ

-- `ok_or(PacketV3Error::BadLsaType(ls_type_raw))`
abbrev pub lsa_v3_type_or : ℕ → Option LsaV3Type → Outcome LsaV3Type
lsa_v3_type_or v none = err (bad_lsa_type v)
lsa_v3_type_or v (some t) = ok t

unfoldable pub parse_lsa_v3_header : List ℕ → Outcome LsaV3Header
parse_lsa_v3_header data_ =
    if ltb (length data_) lsa_v3_header_len
    then err (too_short lsa_v3_header_len (length data_))
    else do
      age ← u16_at data_ 0
      code ← u16_at data_ 2
      kind ← lsa_v3_type_or code (from_u16 code)
      id ← u32_at data_ 4
      adv ← u32_at data_ 8
      seq ← u32_at data_ 12
      sum ← u16_at data_ 16
      len ← u16_at data_ 18
      ok (record {
        ls_age = age;
        ls_type = kind;
        link_state_id = id;
        advertising_router = adv;
        ls_sequence_number = seq;
        ls_checksum = sum;
        length = len;
      })

unfoldable pub encode_lsa_v3_header : LsaV3Header → List ℕ
encode_lsa_v3_header h =
    be16 h.ls_age
    ++ (be16 (to_u16 h.ls_type)
        ++ (be32 h.link_state_id
            ++ (be32 h.advertising_router
                ++ (be32 h.ls_sequence_number ++ (be16 h.ls_checksum ++ be16 h.length)))))

pub record IsLsaV3Header (h : LsaV3Header) : Type 0 where
  pub ls_age : IsU16 h.ls_age
  pub link_state_id : IsU32 h.link_state_id
  pub advertising_router : IsU32 h.advertising_router
  pub ls_sequence_number : IsU32 h.ls_sequence_number
  pub ls_checksum : IsU16 h.ls_checksum
  pub length : IsU16 h.length

pub from_u16-to_u16 : (t : LsaV3Type) → from_u16 (to_u16 t) ≡ some t
from_u16-to_u16 router = refl
from_u16-to_u16 _ = refl

pub to_u16-IsU16 : (t : LsaV3Type) → IsU16 (to_u16 t)
to_u16-IsU16 router = omega arith
to_u16-IsU16 _ = omega arith

pub length-encode_lsa_v3_header : (h : LsaV3Header) → length (encode_lsa_v3_header h) ≡ 20
unfolding encode_lsa_v3_header
length-encode_lsa_v3_header h = refl

pub parse_lsa_v3_header-encode_lsa_v3_header :
    (h : LsaV3Header) (rest : List ℕ)
    → IsLsaV3Header h
    → parse_lsa_v3_header (encode_lsa_v3_header h ++ rest) ≡ ok h
unfolding parse_lsa_v3_header encode_lsa_v3_header
parse_lsa_v3_header-encode_lsa_v3_header h rest v = rw (
  ltb-false (length (encode_lsa_v3_header h ++ rest)) 20
      (omega (arith, length-append (encode_lsa_v3_header h) rest, length-encode_lsa_v3_header h)),
  from_be16-be16 h.ls_age v.ls_age,
  from_be16-be16 (to_u16 h.ls_type) (to_u16-IsU16 h.ls_type),
  from_u16-to_u16 h.ls_type,
  from_be32-be32 h.link_state_id v.link_state_id,
  from_be32-be32 h.advertising_router v.advertising_router,
  from_be32-be32 h.ls_sequence_number v.ls_sequence_number,
  from_be16-be16 h.ls_checksum v.ls_checksum,
  from_be16-be16 h.length v.length,
)

pub IsLsaV3Header-codec :
    Codec lsa_v3_header_len parse_lsa_v3_header encode_lsa_v3_header IsLsaV3Header
IsLsaV3Header-codec = record {
  some_bytes = omega arith;
  width = length-encode_lsa_v3_header;
  inverse = parse_lsa_v3_header-encode_lsa_v3_header;
}
