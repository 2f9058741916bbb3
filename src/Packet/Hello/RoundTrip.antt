-- ===== src/Packet/Hello/RoundTrip.antt =====
-- The Hello body's codec.
use ospfd.Common.{
  ℕ, ◌≡◌, arith, List, All, length, IsU8, IsU16, IsU32, from_be16-be16, from_be32-be32, ok, Returns,
  Returns->>=, inl, inr, le_or_lt, lt→ltb, ltb-false, u8_at, u16_at, u32_at, u8_at-Returns,
  u16_at-Returns, u32_at-Returns,
}
use ospfd.Packet.Addresses.{addresses-encode_addresses}
use ospfd.Packet.Hello.{HelloPacket, hello_min_len, parse_hello, encode_hello}

pub record IsHello (h : HelloPacket) : Type 0 where
  pub network_mask : IsU32 h.network_mask
  pub hello_interval : IsU16 h.hello_interval
  pub options : IsU8 h.options
  pub router_priority : IsU8 h.router_priority
  pub router_dead_interval : IsU32 h.router_dead_interval
  pub designated_router : IsU32 h.designated_router
  pub backup_designated_router : IsU32 h.backup_designated_router
  pub neighbors : All IsU32 h.neighbors

-- A Hello body, its neighbor list included, is read back from the bytes that it is written as.
pub parse_hello-encode_hello : (h : HelloPacket) → IsHello h → parse_hello (encode_hello h) ≡ ok h
unfolding parse_hello encode_hello
parse_hello-encode_hello h v = ground (
  arith,
  from_be32-be32 h.network_mask,
  from_be16-be16 h.hello_interval,
  from_be32-be32 h.router_dead_interval,
  from_be32-be32 h.designated_router,
  from_be32-be32 h.backup_designated_router,
  addresses-encode_addresses h.neighbors v.neighbors,
)

-- On any slice of bytes `parse_hello` returns a Hello or an error, and never reads out of range.
pub parse_hello-Returns : (d : List ℕ) → Returns (parse_hello d)
unfolding parse_hello
parse_hello-Returns d = elim (le_or_lt hello_min_len (length d)) [
  | inr short ↦ rw (lt→ltb _ _ short) tt
  | inl long ↦ rw (ltb-false _ _ long) (
      Returns->>= (u32_at d 0) _ (u32_at-Returns d 0 (omega arith)) λ mask _.
        Returns->>= (u16_at d 4) _ (u16_at-Returns d 4 (omega arith)) λ interval _.
          Returns->>= (u8_at d 6) _ (u8_at-Returns d 6 (omega arith)) λ opts _.
            Returns->>= (u8_at d 7) _ (u8_at-Returns d 7 (omega arith)) λ pri _.
              Returns->>= (u32_at d 8) _ (u32_at-Returns d 8 (omega arith)) λ dead _.
                Returns->>= (u32_at d 12) _ (u32_at-Returns d 12 (omega arith)) λ dr _.
                  Returns->>= (u32_at d 16) _ (u32_at-Returns d 16 (omega arith)) λ bdr _. tt)
]
