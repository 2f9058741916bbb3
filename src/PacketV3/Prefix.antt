-- ===== src/PacketV3/Prefix.antt =====
-- An IPv6 prefix on the wire (src/packet_v3/prefix.rs). An Ipv6Addr is here the list of its octets.
pub mod RoundTrip
use ospfd.Common.{
  slice_at, ℕ, zero, suc, ◌+◌, ◌-◌, ◌*◌, ◌/◌, min, List, [], ◌∷◌, ◌++◌, length, take, drop, ltb,
  if◌then◌else◌, be16, u8_at, u16_at, Outcome, ok, err, fault, panic, too_short, ◌>>=◌,
}

pub record Ospfv3Prefix : Type 0 where
  pub prefix_length : ℕ
  pub prefix_options : ℕ
  pub prefix_or_metric : ℕ
  pub address : List ℕ

-- The number of 32-bit words for a prefix of this length.
abbrev pub prefix_word_count : ℕ → ℕ
prefix_word_count prefix_length = (prefix_length + 31) / 32

abbrev pub prefix_wire_size : Ospfv3Prefix → ℕ
prefix_wire_size p = 4 + prefix_word_count p.prefix_length * 4

unfoldable pub zeros : ℕ → List ℕ
zeros zero = []
zeros (suc n) = 0 ∷ zeros n

-- `octets[..n].copy_from_slice(…)` on 16 zeros.
unfoldable pub padded : List ℕ → List ℕ
padded l = l ++ zeros (16 - length l)

abbrev pub prefix_fields : List ℕ → ℕ → ℕ → ℕ → Outcome (Ospfv3Prefix × ℕ)
prefix_fields data_ len opts m =
    let n = prefix_word_count len * 4 in
    if ltb (length data_) (4 + n) then err (too_short (4 + n) (length data_)) else do
      octets ← slice_at data_ 4 (min n 16)
      ok (
        record {
          prefix_length = len;
          prefix_options = opts;
          prefix_or_metric = m;
          address = padded octets;
        },
        4 + n,
      )

-- The prefix, and how many bytes it took.
unfoldable pub parse_prefix : List ℕ → Outcome (Ospfv3Prefix × ℕ)
parse_prefix data_ = if ltb (length data_) 4 then err (too_short 4 (length data_)) else do
  len ← u8_at data_ 0
  opts ← u8_at data_ 1
  m ← u16_at data_ 2
  prefix_fields data_ len opts m

-- `&octets[..words * 4]` panics past the 16 octets.
unfoldable pub encode_prefix : Ospfv3Prefix → Outcome (List ℕ)
encode_prefix p =
    let n = prefix_word_count p.prefix_length * 4 in
    if ltb (length p.address) n
    then fault panic
    else ok (p.prefix_length ∷ p.prefix_options ∷ (be16 p.prefix_or_metric ++ take n p.address))

-- `for _ in 0..num_prefixes { if off >= data.len() { break } … }`, on `data[off..]`.
unfoldable pub parse_prefixes : ℕ → List ℕ → Outcome (List Ospfv3Prefix)
parse_prefixes n [] = ok []
parse_prefixes zero d = ok []
parse_prefixes (suc n) (x ∷ d) = do
  r ← parse_prefix (x ∷ d)
  rest ← parse_prefixes n (drop (r.1) (x ∷ d))
  ok (r.0 ∷ rest)

unfoldable pub encode_prefixes : List Ospfv3Prefix → Outcome (List ℕ)
encode_prefixes [] = ok []
encode_prefixes (p ∷ ps) = do first ← encode_prefix p; rest ← encode_prefixes ps; ok (first ++ rest)
