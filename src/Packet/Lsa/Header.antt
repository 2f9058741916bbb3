-- ===== src/Packet/Lsa/Header.antt =====
-- LSA types, keys and the 20-byte LSA header (src/packet/lsa.rs, lines 10-163).
pub mod RoundTrip
pub mod Recency
use ospfd.Common.{
  ℕ, zero, suc, ◌+◌, ◌-◌, ◌%◌, ◌<◌, Bool, true, false, not, ◌&&◌, Option, none, some, List, [], ◌∷◌,
  ◌++◌, length, ltb, ◌==◌, if◌then◌else◌, Ipv4Addr, IsU8, IsU16, IsU32, be16, be32, u8_at, u16_at,
  u32_at, Outcome, ok, err, PacketError, too_short, bad_lsa_type, ◌>>=◌,
}
use Prim.Native.Nat.{compare, Ordering}

pub data LsaType : Type 0 where
  router network summary_network summary_asbr as_external : LsaType

pub LsaType-discrete : Discrete LsaType
LsaType-discrete = hlevel

abbrev pub to_u8 : LsaType → ℕ
to_u8 router = 1
to_u8 network = 2
to_u8 summary_network = 3
to_u8 summary_asbr = 4
to_u8 as_external = 5

abbrev pub from_u8 : ℕ → Option LsaType
from_u8 (suc zero) = some router
from_u8 (suc (suc zero)) = some network
from_u8 (suc (suc (suc zero))) = some summary_network
from_u8 (suc (suc (suc (suc zero)))) = some summary_asbr
from_u8 (suc (suc (suc (suc (suc zero))))) = some as_external
from_u8 _ = none

abbrev pub lsa_header_len : ℕ
lsa_header_len = 20

-- Seconds.
abbrev pub max_age : ℕ
max_age = 3600

pub record LsaKey : Type 0 where
  pub ls_type : LsaType
  pub link_state_id : Ipv4Addr
  pub advertising_router : Ipv4Addr

-- `ls_sequence_number`, an i32, is held as its 32-bit pattern: -0x7FFF_FFFF is 0x8000_0001.
pub record LsaHeader : Type 0 where
  pub ls_age : ℕ
  pub options : ℕ
  pub ls_type : LsaType
  pub link_state_id : Ipv4Addr
  pub advertising_router : Ipv4Addr
  pub ls_sequence_number : ℕ
  pub ls_checksum : ℕ
  pub length : ℕ

-- The fields fit the types of the source.
pub record IsHeader (h : LsaHeader) : Type 0 where
  pub ls_age : IsU16 h.ls_age
  pub options : IsU8 h.options
  pub link_state_id : IsU32 h.link_state_id
  pub advertising_router : IsU32 h.advertising_router
  pub ls_sequence_number : IsU32 h.ls_sequence_number
  pub ls_checksum : IsU16 h.ls_checksum
  pub length : IsU16 h.length

-- `ok_or(PacketError::BadLsaType(v))`
abbrev pub lsa_type_or : ℕ → Option LsaType → Outcome LsaType
lsa_type_or v none = err (bad_lsa_type v)
lsa_type_or v (some t) = ok t

unfoldable pub parse : List ℕ → Outcome LsaHeader
parse data_ =
    if ltb (length data_) lsa_header_len then err (too_short lsa_header_len (length data_)) else do
      age ← u16_at data_ 0
      opts ← u8_at data_ 2
      code ← u8_at data_ 3
      kind ← lsa_type_or code (from_u8 code)
      id ← u32_at data_ 4
      adv ← u32_at data_ 8
      seq ← u32_at data_ 12
      sum ← u16_at data_ 16
      len ← u16_at data_ 18
      ok (record {
        ls_age = age;
        options = opts;
        ls_type = kind;
        link_state_id = id;
        advertising_router = adv;
        ls_sequence_number = seq;
        ls_checksum = sum;
        length = len;
      })

-- The bytes that `encode` appends to its buffer.
unfoldable pub encode : LsaHeader → List ℕ
encode h =
    be16 h.ls_age
    ++ (h.options
        ∷ to_u8 h.ls_type
        ∷ (be32 h.link_state_id
            ++ (be32 h.advertising_router
                ++ (be32 h.ls_sequence_number ++ (be16 h.ls_checksum ++ be16 h.length)))))

abbrev pub key : LsaHeader → LsaKey
key h = record {
  ls_type = h.ls_type;
  link_state_id = h.link_state_id;
  advertising_router = h.advertising_router;
}
