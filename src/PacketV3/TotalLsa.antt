-- ===== src/PacketV3/TotalLsa.antt =====
-- No parser of a version 3 LSA body panics, whatever bytes arrive (src/packet_v3/lsa.rs).
use ospfd.Common.{
  slice_at, slice_at-Returns, min, ℕ, zero, suc, ◌+◌, arith, Bool, true, false, not, List, [], ◌∷◌,
  drop, ◌==◌, ◌*◌, u8_at, u16_at, u32_at, u8_at-Returns, u16_at-Returns, u32_at-Returns, Returns,
  Returns->>=,
}
use Prim.Native.Nat.{bit_and}
use ospfd.Packet.Each.{parse_each, parse_each-Returns}
use ospfd.PacketV3.Bits24.{u24_at, u24_at-Returns}
use ospfd.PacketV3.Prefix.{prefix_word_count, parse_prefix, parse_prefixes}
use ospfd.PacketV3.Bodies.{
  parse_link_v3, parse_router_v3, parse_network_v3, parse_link_lsa_v3, parse_intra_v3,
  parse_inter_v3,
}
use ospfd.PacketV3.External.{octets_at, word_at, parse_external_v3}
use ospfd.PacketV3.Total.{guarded-Returns}

link-Returns : (d : List ℕ) → Returns (parse_link_v3 d)
unfolding parse_link_v3
link-Returns d = guarded-Returns 16 d _ _ tt λ long.
    Returns->>= (u8_at d 0) _ (u8_at-Returns d 0 (omega arith)) λ kind _.
      Returns->>= (u16_at d 2) _ (u16_at-Returns d 2 (omega arith)) λ m _.
        Returns->>= (u32_at d 4) _ (u32_at-Returns d 4 (omega arith)) λ id _.
          Returns->>= (u32_at d 8) _ (u32_at-Returns d 8 (omega arith))
            λ nid _. Returns->>= (u32_at d 12) _ (u32_at-Returns d 12 (omega arith)) λ router _. tt

router-Returns : (d : List ℕ) → Returns (parse_router_v3 d)
unfolding parse_router_v3
router-Returns d = guarded-Returns 4 d _ _ tt λ long.
    Returns->>= (u8_at d 0) _ (u8_at-Returns d 0 (omega arith)) λ fl _.
      Returns->>= (u24_at d 1) _ (u24_at-Returns d 1 (omega arith)) λ opts _.
        Returns->>= (parse_each 16 parse_link_v3 (drop 4 d)) _
          (parse_each-Returns 16 parse_link_v3 (drop 4 d) (omega arith) link-Returns) λ ls _. tt

network-Returns : (d : List ℕ) → Returns (parse_network_v3 d)
unfolding parse_network_v3
network-Returns d =
    guarded-Returns 4 d _ _ tt
      λ long. Returns->>= (u24_at d 1) _ (u24_at-Returns d 1 (omega arith)) λ opts _. tt

prefix-Returns : (d : List ℕ) → Returns (parse_prefix d)
unfolding parse_prefix
prefix-Returns d = guarded-Returns 4 d _ _ tt λ long.
    Returns->>= (u8_at d 0) _ (u8_at-Returns d 0 (omega arith)) λ len _.
      Returns->>= (u8_at d 1) _ (u8_at-Returns d 1 (omega arith)) λ opts _.
        Returns->>= (u16_at d 2) _ (u16_at-Returns d 2 (omega arith)) λ m _.
          guarded-Returns (4 + prefix_word_count len * 4) d _ _ tt λ all.
            Returns->>= (slice_at d 4 (min (prefix_word_count len * 4) 16)) _
              (slice_at-Returns d 4 (min (prefix_word_count len * 4) 16) (omega arith))
              λ octets _. tt

prefixes-Returns : (n : ℕ) (d : List ℕ) → Returns (parse_prefixes n d)
unfolding parse_prefixes
prefixes-Returns zero [] = tt
prefixes-Returns (suc n) [] = tt
prefixes-Returns zero (x ∷ d) = tt
prefixes-Returns (suc n) (x ∷ d) =
    Returns->>= (parse_prefix (x ∷ d)) _ (prefix-Returns (x ∷ d)) λ r _.
      Returns->>= (parse_prefixes n (drop (r.1) (x ∷ d))) _
        (prefixes-Returns n (drop (r.1) (x ∷ d))) λ rest _. tt

link_lsa-Returns : (d : List ℕ) → Returns (parse_link_lsa_v3 d)
unfolding parse_link_lsa_v3
link_lsa-Returns d = guarded-Returns 24 d _ _ tt λ long.
    Returns->>= (u8_at d 0) _ (u8_at-Returns d 0 (omega arith)) λ pri _.
      Returns->>= (u24_at d 1) _ (u24_at-Returns d 1 (omega arith)) λ opts _.
        Returns->>= (slice_at d 4 16) _ (slice_at-Returns d 4 16 (omega arith)) λ octets _.
          Returns->>= (u32_at d 20) _ (u32_at-Returns d 20 (omega arith)) λ n _.
            Returns->>= (parse_prefixes n (drop 24 d)) _ (prefixes-Returns n (drop 24 d)) λ ps _. tt

intra-Returns : (d : List ℕ) → Returns (parse_intra_v3 d)
unfolding parse_intra_v3
intra-Returns d = guarded-Returns 12 d _ _ tt λ long.
    Returns->>= (u16_at d 0) _ (u16_at-Returns d 0 (omega arith)) λ n _.
      Returns->>= (u16_at d 2) _ (u16_at-Returns d 2 (omega arith)) λ kind _.
        Returns->>= (u32_at d 4) _ (u32_at-Returns d 4 (omega arith)) λ id _.
          Returns->>= (u32_at d 8) _ (u32_at-Returns d 8 (omega arith)) λ adv _.
            Returns->>= (parse_prefixes n (drop 12 d)) _ (prefixes-Returns n (drop 12 d)) λ ps _. tt

inter-Returns : (d : List ℕ) → Returns (parse_inter_v3 d)
unfolding parse_inter_v3
inter-Returns d = guarded-Returns 4 d _ _ tt λ long.
    Returns->>= (u24_at d 1) _ (u24_at-Returns d 1 (omega arith))
      λ m _. Returns->>= (parse_prefix (drop 4 d)) _ (prefix-Returns (drop 4 d)) λ r _. tt

octets_at-Returns : (b : Bool) (d : List ℕ) (off : ℕ) → Returns (octets_at b d off)
octets_at-Returns false d off = tt
octets_at-Returns true d off =
    guarded-Returns (off + 16) d _ _ tt
      λ long. Returns->>= (slice_at d off 16) _ (slice_at-Returns d off 16 long) λ octets _. tt

word_at-Returns : (b : Bool) (d : List ℕ) (off : ℕ) → Returns (word_at b d off)
word_at-Returns false d off = tt
word_at-Returns true d off =
    guarded-Returns (off + 4) d _ _ tt
      λ long. Returns->>= (u32_at d off) _ (u32_at-Returns d off long) λ w _. tt

external-Returns : (d : List ℕ) → Returns (parse_external_v3 d)
unfolding parse_external_v3
external-Returns d = guarded-Returns 4 d _ _ tt λ long.
    Returns->>= (u8_at d 0) _ (u8_at-Returns d 0 (omega arith)) λ flags _.
      Returns->>= (u24_at d 1) _ (u24_at-Returns d 1 (omega arith)) λ m _.
        Returns->>= (parse_prefix (drop 4 d)) _ (prefix-Returns (drop 4 d)) λ p _.
          Returns->>= (octets_at (not (bit_and flags 2 == 0)) d (4 + p.1)) _
            (octets_at-Returns (not (bit_and flags 2 == 0)) d (4 + p.1))
            λ fa _.
              Returns->>= (word_at (not (bit_and flags 1 == 0)) d (fa.1)) _
                (word_at-Returns (not (bit_and flags 1 == 0)) d (fa.1))
                λ tag _.
                  Returns->>= (word_at (not (p.0.prefix_or_metric == 0)) d (tag.1)) _
                    (word_at-Returns (not (p.0.prefix_or_metric == 0)) d (tag.1)) λ id _. tt

-- On any bytes the parsers of the version 3 LSA bodies return a body or an error, and never read out of
-- range.
pub lsa_bodies-Returns :
    (d : List ℕ)
    → Returns (parse_router_v3 d)
      × Returns (parse_network_v3 d)
      × Returns (parse_link_lsa_v3 d)
      × Returns (parse_intra_v3 d)
      × Returns (parse_inter_v3 d)
      × Returns (parse_external_v3 d)
lsa_bodies-Returns d = (
  router-Returns d,
  network-Returns d,
  link_lsa-Returns d,
  intra-Returns d,
  inter-Returns d,
  external-Returns d,
)
