-- ===== src/Packet/Lsa/Header/RoundTrip.antt =====
-- The LSA header's codec: what is written is read back, and reading never panics.
use ospfd.Common.{
  ℕ, ◌≡◌, refl, arith, Option, none, some, List, ◌++◌, length, le_or_lt, lt→ltb, ok, Returns,
  Returns->>=, u8_at, u16_at, u32_at, u8_at-Returns, u16_at-Returns, u32_at-Returns, from_be16-be16,
  from_be32-be32, ltb-false, inl, inr, length-append,
}
use ospfd.Packet.Lsa.Header.{
  LsaType, LsaHeader, IsHeader, router, to_u8, from_u8, lsa_header_len, lsa_type_or, parse, encode,
}

pub from_u8-to_u8 : (t : LsaType) → from_u8 (to_u8 t) ≡ some t
from_u8-to_u8 router = refl
from_u8-to_u8 _ = refl

pub length-encode : (h : LsaHeader) → length (encode h) ≡ lsa_header_len
unfolding encode
length-encode h = refl

-- A header whose fields fit their types is read back from the bytes that it is written as,
-- whatever follows them.
pub header_parse-encode :
    (h : LsaHeader) (rest : List ℕ) → IsHeader h → parse (encode h ++ rest) ≡ ok h
unfolding parse encode
header_parse-encode h rest v = rw (
  ltb-false (length (encode h ++ rest)) 20
      (omega (arith, length-append (encode h) rest, length-encode h)),
  from_u8-to_u8 h.ls_type,
  from_be16-be16 h.ls_age v.ls_age,
  from_be32-be32 h.link_state_id v.link_state_id,
  from_be32-be32 h.advertising_router v.advertising_router,
  from_be32-be32 h.ls_sequence_number v.ls_sequence_number,
  from_be16-be16 h.ls_checksum v.ls_checksum,
  from_be16-be16 h.length v.length,
)

lsa_type_or-Returns : (v : ℕ) (o : Option LsaType) → Returns (lsa_type_or v o)
lsa_type_or-Returns v none = tt
lsa_type_or-Returns v (some t) = tt

-- On any slice of bytes `parse` returns a header or an error, and never reads out of range.
pub header_parse-Returns : (d : List ℕ) → Returns (parse d)
unfolding parse
header_parse-Returns d = elim (le_or_lt lsa_header_len (length d)) [
  | inr short ↦ rw (lt→ltb _ _ short) tt
  | inl long ↦ rw (ltb-false _ _ long) (
      Returns->>= (u16_at d 0) _ (u16_at-Returns d 0 (omega arith)) λ age _.
        Returns->>= (u8_at d 2) _ (u8_at-Returns d 2 (omega arith)) λ opts _.
          Returns->>= (u8_at d 3) _ (u8_at-Returns d 3 (omega arith)) λ code _.
            Returns->>= (lsa_type_or code (from_u8 code)) _ (lsa_type_or-Returns code _) λ kind _.
              Returns->>= (u32_at d 4) _ (u32_at-Returns d 4 (omega arith)) λ id _.
                Returns->>= (u32_at d 8) _ (u32_at-Returns d 8 (omega arith)) λ adv _.
                  Returns->>= (u32_at d 12) _ (u32_at-Returns d 12 (omega arith)) λ seq _.
                    Returns->>= (u16_at d 16) _ (u16_at-Returns d 16 (omega arith)) λ sum _.
                      Returns->>= (u16_at d 18) _ (u16_at-Returns d 18 (omega arith)) λ len _. tt)
]
