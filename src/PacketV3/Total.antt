-- ===== src/PacketV3/Total.antt =====
-- No version 3 parser panics, whatever bytes arrive (src/packet_v3/).
use ospfd.Common.{
  slice_at, slice_at-Returns, ◌≡◌, false, ℕ, zero, suc, ◌+◌, ◌≤◌, arith, inl, inr, Bool-cases, ◌||◌,
  Option, none, some, List, length, drop, ltb, ltb-false, lt→ltb, le_or_lt, if◌then◌else◌, u8_at,
  u16_at, u32_at, u8_at-Returns, u16_at-Returns, u32_at-Returns, Outcome, Returns, Returns->>=,
}
use ospfd.Packet.Each.{parse_each, parse_each-Returns}
use ospfd.PacketV3.Bits24.{u24_at, u24_at-Returns}
use ospfd.PacketV3.Hello.{parse_hello_v3}
use ospfd.PacketV3.Lsa.{LsaV3Type, from_u16, lsa_v3_type_or, parse_lsa_v3_header}
use ospfd.PacketV3.Exchange.{
  parse_dd_v3, parse_request_v3, parse_lsr_v3, parse_ack_v3, parse_raws, parse_lsu_v3,
}

type_or-Returns : (v : ℕ) (o : Option LsaV3Type) → Returns (lsa_v3_type_or v o)
type_or-Returns v none = tt
type_or-Returns v (some t) = tt

-- Behind the test of the length.
pub guarded-Returns :
    {A : Type 0} (n : ℕ) (d : List ℕ) (e : Outcome A) (rest : Outcome A)
    → Returns e
    → (n ≤ length d → Returns rest)
    → Returns (if ltb (length d) n then e else rest)
guarded-Returns n d e rest h k = elim (le_or_lt n (length d)) [
  | inr short ↦ rw (lt→ltb _ _ short) h
  | inl long ↦ rw (ltb-false _ _ long) (k long)
]

header-Returns : (d : List ℕ) → Returns (parse_lsa_v3_header d)
unfolding parse_lsa_v3_header
header-Returns d = guarded-Returns 20 d _ _ tt λ long.
    Returns->>= (u16_at d 0) _ (u16_at-Returns d 0 (omega arith)) λ age _.
      Returns->>= (u16_at d 2) _ (u16_at-Returns d 2 (omega arith)) λ code _.
        Returns->>= (lsa_v3_type_or code (from_u16 code)) _ (type_or-Returns code _) λ kind _.
          Returns->>= (u32_at d 4) _ (u32_at-Returns d 4 (omega arith)) λ id _.
            Returns->>= (u32_at d 8) _ (u32_at-Returns d 8 (omega arith)) λ adv _.
              Returns->>= (u32_at d 12) _ (u32_at-Returns d 12 (omega arith)) λ seq _.
                Returns->>= (u16_at d 16) _ (u16_at-Returns d 16 (omega arith)) λ sum _.
                  Returns->>= (u16_at d 18) _ (u16_at-Returns d 18 (omega arith)) λ len _. tt

inside_guard : (n k : ℕ) → (ltb n k || ltb k 20) ≡ false → 0 + k ≤ n
inside_guard n k h = ground arith

raws-Returns : (n off : ℕ) (d : List ℕ) → Returns (parse_raws n off d)
unfolding parse_raws
raws-Returns zero off d = tt
raws-Returns (suc n) off d = guarded-Returns 20 d _ _ tt λ long.
    Returns->>= (parse_lsa_v3_header d) _ (header-Returns d) λ h _.
      elim (Bool-cases (ltb (length d) h.length || ltb h.length 20)) [
        | inl bad ↦ rw bad tt
        | inr good ↦ rw good (
            Returns->>= (slice_at d 0 h.length) _
              (slice_at-Returns d 0 h.length (inside_guard (length d) h.length good))
              λ raw _.
                Returns->>= (parse_raws n (off + h.length) (drop h.length d)) _
                  (raws-Returns n (off + h.length) (drop h.length d)) λ ls _. tt)
      ]

lsu-Returns : (d : List ℕ) → Returns (parse_lsu_v3 d)
unfolding parse_lsu_v3
lsu-Returns d = guarded-Returns 4 d _ _ tt λ long.
    Returns->>= (u32_at d 0) _ (u32_at-Returns d 0 (omega arith)) λ count _.
      Returns->>= (parse_raws count 4 (drop 4 d)) _ (raws-Returns count 4 (drop 4 d)) λ ls _. tt

hello-Returns : (d : List ℕ) → Returns (parse_hello_v3 d)
unfolding parse_hello_v3
hello-Returns d = guarded-Returns 20 d _ _ tt λ long.
    Returns->>= (u32_at d 0) _ (u32_at-Returns d 0 (omega arith)) λ id _.
      Returns->>= (u8_at d 4) _ (u8_at-Returns d 4 (omega arith)) λ pri _.
        Returns->>= (u24_at d 5) _ (u24_at-Returns d 5 (omega arith)) λ opts _.
          Returns->>= (u16_at d 8) _ (u16_at-Returns d 8 (omega arith)) λ interval _.
            Returns->>= (u16_at d 10) _ (u16_at-Returns d 10 (omega arith)) λ dead _.
              Returns->>= (u32_at d 12) _ (u32_at-Returns d 12 (omega arith))
                λ dr _. Returns->>= (u32_at d 16) _ (u32_at-Returns d 16 (omega arith)) λ bdr _. tt

dd-Returns : (d : List ℕ) → Returns (parse_dd_v3 d)
unfolding parse_dd_v3
dd-Returns d = guarded-Returns 12 d _ _ tt λ long.
    Returns->>= (u24_at d 1) _ (u24_at-Returns d 1 (omega arith)) λ opts _.
      Returns->>= (u16_at d 4) _ (u16_at-Returns d 4 (omega arith)) λ mtu _.
        Returns->>= (u8_at d 7) _ (u8_at-Returns d 7 (omega arith)) λ fl _.
          Returns->>= (u32_at d 8) _ (u32_at-Returns d 8 (omega arith)) λ seq _.
            Returns->>= (parse_each 20 parse_lsa_v3_header (drop 12 d)) _
              (parse_each-Returns 20 parse_lsa_v3_header (drop 12 d) (omega arith) header-Returns)
              λ hs _. tt

request-Returns : (d : List ℕ) → Returns (parse_request_v3 d)
unfolding parse_request_v3
request-Returns d = guarded-Returns 12 d _ _ tt λ long.
    Returns->>= (u16_at d 2) _ (u16_at-Returns d 2 (omega arith)) λ code _.
      Returns->>= (lsa_v3_type_or code (from_u16 code)) _ (type_or-Returns code _) λ kind _.
        Returns->>= (u32_at d 4) _ (u32_at-Returns d 4 (omega arith))
          λ id _. Returns->>= (u32_at d 8) _ (u32_at-Returns d 8 (omega arith)) λ adv _. tt

lsr-Returns : (d : List ℕ) → Returns (parse_lsr_v3 d)
unfolding parse_lsr_v3
lsr-Returns d =
    Returns->>= (parse_each 12 parse_request_v3 d) _
      (parse_each-Returns 12 parse_request_v3 d (omega arith) request-Returns) λ rs _. tt

ack-Returns : (d : List ℕ) → Returns (parse_ack_v3 d)
unfolding parse_ack_v3
ack-Returns d =
    Returns->>= (parse_each 20 parse_lsa_v3_header d) _
      (parse_each-Returns 20 parse_lsa_v3_header d (omega arith) header-Returns) λ hs _. tt

-- On any bytes the parsers of the version 3 packet bodies return a packet or an error, and never read
-- out of range.
pub bodies-Returns :
    (d : List ℕ)
    → Returns (parse_hello_v3 d)
      × Returns (parse_dd_v3 d)
      × Returns (parse_lsr_v3 d)
      × Returns (parse_lsu_v3 d)
      × Returns (parse_ack_v3 d)
bodies-Returns d = (hello-Returns d, dd-Returns d, lsr-Returns d, lsu-Returns d, ack-Returns d)
