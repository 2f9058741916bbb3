-- ===== src/PacketV3/External.antt =====
-- The AS-External-LSA body, which a Nssa-LSA has too (src/packet_v3/lsa.rs, lines 512-651).
pub mod RoundTrip
use Prim.Native.Nat.{bit_and}
use ospfd.Common.{
  slice_at, ℕ, ◌+◌, Bool, true, false, not, Option, none, some, List, [], ◌∷◌, ◌++◌, length, take,
  drop, ltb, ◌==◌, if◌then◌else◌, be32, u8_at, u32_at, Outcome, ok, err, too_short, ◌>>=◌,
}
use ospfd.PacketV3.Bits24.{u24_at, be24}
use ospfd.PacketV3.Prefix.{Ospfv3Prefix, parse_prefix, encode_prefix}

pub record AsExternalLsaV3 : Type 0 where
  pub metric_type_2 : Bool
  pub forwarding_present : Bool
  pub tag_present : Bool
  pub metric : ℕ
  pub prefix : Ospfv3Prefix
  pub referenced_ls_type : ℕ
  pub forwarding_address : Option (List ℕ)
  pub external_route_tag : Option ℕ
  pub referenced_link_state_id : Option ℕ

-- An optional field at an offset, and the offset behind it.
abbrev pub octets_at : Bool → List ℕ → ℕ → Outcome (Option (List ℕ) × ℕ)
octets_at false data_ off = ok (none, off)
octets_at true data_ off =
    if ltb (length data_) (off + 16)
    then err (too_short (off + 16) (length data_))
    else (slice_at data_ off 16 >>= λ octets. ok (some octets, off + 16))

abbrev pub word_at : Bool → List ℕ → ℕ → Outcome (Option ℕ × ℕ)
word_at false data_ off = ok (none, off)
word_at true data_ off =
    if ltb (length data_) (off + 4)
    then err (too_short (off + 4) (length data_))
    else (u32_at data_ off >>= λ w. ok (some w, off + 4))

unfoldable pub parse_external_v3 : List ℕ → Outcome AsExternalLsaV3
parse_external_v3 data_ = if ltb (length data_) 4 then err (too_short 4 (length data_)) else do
  flags ← u8_at data_ 0
  let e = not (bit_and flags 4 == 0)
  let f = not (bit_and flags 2 == 0)
  let t = not (bit_and flags 1 == 0)
  m ← u24_at data_ 1
  p ← parse_prefix (drop 4 data_)
  fa ← octets_at f data_ (4 + p.1)
  tag ← word_at t data_ (fa.1)
  id ← word_at (not (p.0.prefix_or_metric == 0)) data_ (tag.1)
  ok (record {
    metric_type_2 = e;
    forwarding_present = f;
    tag_present = t;
    metric = m;
    prefix = p.0;
    referenced_ls_type = p.0.prefix_or_metric;
    forwarding_address = fa.0;
    external_route_tag = tag.0;
    referenced_link_state_id = id.0;
  })

-- The bits that `|=` sets one after the other.
abbrev pub external_flags : Bool → Bool → Bool → ℕ
external_flags e f t = (if e then 4 else 0) + (if f then 2 else 0) + (if t then 1 else 0)

abbrev pub optional_octets : Option (List ℕ) → List ℕ
optional_octets none = []
optional_octets (some a) = a

abbrev pub optional_word : Option ℕ → List ℕ
optional_word none = []
optional_word (some w) = be32 w

unfoldable pub encode_external_v3 : AsExternalLsaV3 → Outcome (List ℕ)
encode_external_v3 l = do
  p ← encode_prefix (record l.prefix { prefix_or_metric = l.referenced_ls_type })
  ok (
      external_flags l.metric_type_2 l.forwarding_present l.tag_present
      ∷ (be24 l.metric
          ++ (p
              ++ (optional_octets l.forwarding_address
                  ++ (optional_word l.external_route_tag
                      ++ optional_word l.referenced_link_state_id)))))
