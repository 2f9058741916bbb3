-- ===== src/PacketV3/Prefix/RoundTrip.antt =====
-- Prefixes are read back from what is written, and which prefixes can be written.
use ospfd.Common.{
  ℕ, zero, suc, ◌+◌, ◌-◌, ◌*◌, ◌≤◌, ◌<◌, ◌≡◌, refl, arith, min, List, [], ◌∷◌, ◌++◌, length,
  length-append, length-take, take, drop, take-length_append, drop-length_append, All, false, ltb,
  ltb-false, lt→ltb, IsU16, be16, from_be16-be16, true, from_be16, ◌>>=◌, ok, fault, panic,
}
use ospfd.PacketV3.Prefix.{
  Ospfv3Prefix, prefix_word_count, prefix_wire_size, zeros, padded, parse_prefix, encode_prefix,
  parse_prefixes, encode_prefixes,
}

abbrev pub octets_of : Ospfv3Prefix → List ℕ
octets_of p = take (prefix_word_count p.prefix_length * 4) p.address

-- An address of 16 octets that is zero after the words of the prefix.
pub record IsPrefix (p : Ospfv3Prefix) : Type 0 where
  pub prefix_length : p.prefix_length ≤ 128
  pub prefix_or_metric : IsU16 p.prefix_or_metric
  pub octets : length p.address ≡ 16
  pub blank : padded (octets_of p) ≡ p.address

abbrev pub prefix_bytes : Ospfv3Prefix → List ℕ
prefix_bytes p = p.prefix_length ∷ p.prefix_options ∷ (be16 p.prefix_or_metric ++ octets_of p)

pub encode_prefix_lem : (p : Ospfv3Prefix) → IsPrefix p → encode_prefix p ≡ ok (prefix_bytes p)
unfolding encode_prefix
encode_prefix_lem p v =
    rw
      (ltb-false (length p.address) (prefix_word_count p.prefix_length * 4)
        (omega (arith, v.octets, v.prefix_length)))
      refl

pub length-octets_of :
    (p : Ospfv3Prefix) → IsPrefix p → length (octets_of p) ≡ prefix_word_count p.prefix_length * 4
length-octets_of p v = omega (
  arith,
  length-take (prefix_word_count p.prefix_length * 4) p.address,
  v.octets,
  v.prefix_length,
)

pub parse_prefix-prefix_bytes :
    (p : Ospfv3Prefix) (rest : List ℕ)
    → IsPrefix p
    → parse_prefix (prefix_bytes p ++ rest) ≡ ok (p, prefix_wire_size p)
unfolding parse_prefix
parse_prefix-prefix_bytes p rest v =
    let size = length-octets_of p v in
    let all = length-append (octets_of p) rest in
    let small : min (prefix_word_count p.prefix_length * 4) 16 ≡ length (octets_of p) =
      omega (arith, size, v.prefix_length) in
    let fits : ltb (length (prefix_bytes p ++ rest)) (4 + prefix_word_count p.prefix_length * 4)
        ≡ false =
      ltb-false _ _ (omega (arith, size, all)) in
    let head : ltb (length (prefix_bytes p ++ rest)) 4 ≡ false = ltb-false _ _ (omega arith) in
    let inside : ltb (length (prefix_bytes p ++ rest)) (4 + length (octets_of p)) ≡ false =
      ltb-false _ _ (omega (arith, all)) in
    let whole : take (length (octets_of p)) (octets_of p ++ rest) ≡ octets_of p =
      take-length_append (octets_of p) rest in
    rw
      (
        head,
        from_be16-be16 p.prefix_or_metric v.prefix_or_metric,
        fits,
        small,
        inside,
        whole,
        v.blank,
      )
      refl

-- A prefix of at most 128 bits whose address is zero after its words is written without a panic, and
-- read back, with the number of its bytes, whatever follows.
pub parse_prefix-encode_prefix :
    (p : Ospfv3Prefix) (rest : List ℕ)
    → IsPrefix p
    → (encode_prefix p >>= λ bytes. parse_prefix (bytes ++ rest)) ≡ ok (p, prefix_wire_size p)
parse_prefix-encode_prefix p rest v =
    rw (encode_prefix_lem p v) (parse_prefix-prefix_bytes p rest v)

length-zeros : (n : ℕ) → length (zeros n) ≡ n
unfolding zeros
length-zeros zero = refl
length-zeros (suc n) = omega (arith, length-zeros n)

length-padded : (l : List ℕ) → length l ≤ 16 → length (padded l) ≡ 16
unfolding padded
length-padded l h =
    omega (arith, length-append l (zeros (16 - length l)), length-zeros (16 - length l))

-- A prefix of more than 128 bits with as many bytes as its length asks for is accepted, and what is
-- then read cannot be written: `encode` panics.
pub long_prefix_panics :
    (len opts a b : ℕ) (d : List ℕ)
    → 128 < len
    → prefix_word_count len * 4 ≤ length d
    → (p : Ospfv3Prefix) × (parse_prefix (len ∷ opts ∷ a ∷ b ∷ d)
        ≡ ok (p, 4 + prefix_word_count len * 4))
      × (encode_prefix p ≡ fault panic)
unfolding parse_prefix encode_prefix
long_prefix_panics len opts a b d long enough =
    let fits : ltb (length (len ∷ opts ∷ a ∷ b ∷ d)) (4 + prefix_word_count len * 4) ≡ false =
      ltb-false _ _ (omega arith) in
    let head : ltb (length (len ∷ opts ∷ a ∷ b ∷ d)) 4 ≡ false = ltb-false _ _ (omega arith) in
    let n = min (prefix_word_count len * 4) 16 in
    let inside : ltb (length (len ∷ opts ∷ a ∷ b ∷ d)) (4 + n) ≡ false =
      ltb-false _ _ (omega arith) in
    let size = length-padded (take n d) (omega (arith, length-take n d)) in
    let over : ltb (length (padded (take n d))) (prefix_word_count len * 4) ≡ true =
      lt→ltb _ _ (omega (arith, size)) in
    (
      record {
        prefix_length = len;
        prefix_options = opts;
        prefix_or_metric = from_be16 a b;
        address = padded (take n d);
      },
      rw (head, fits, inside) refl,
      rw over refl,
    )

-- A list of prefixes, each of at most 128 bits with a blank end.
abbrev pub all_bytes : List Ospfv3Prefix → List ℕ
all_bytes [] = []
all_bytes (p ∷ ps) = prefix_bytes p ++ all_bytes ps

pub encode_prefixes_lem :
    (ps : List Ospfv3Prefix) → All IsPrefix ps → encode_prefixes ps ≡ ok (all_bytes ps)
unfolding encode_prefixes
encode_prefixes_lem [] v = refl
encode_prefixes_lem (p ∷ ps) v = rw (encode_prefix_lem p v.0, encode_prefixes_lem ps v.1) refl

drop-prefix_bytes :
    (p : Ospfv3Prefix) (rest : List ℕ)
    → IsPrefix p
    → drop (prefix_wire_size p) (prefix_bytes p ++ rest) ≡ rest
drop-prefix_bytes p rest v =
    let size = length-octets_of p v in
    let same : prefix_wire_size p ≡ suc (suc (suc (suc (length (octets_of p))))) =
      omega (arith, size) in
    rw same (drop-length_append (octets_of p) rest)

pub parse_prefixes-all_bytes :
    (ps : List Ospfv3Prefix) → All IsPrefix ps → parse_prefixes (length ps) (all_bytes ps) ≡ ok ps
unfolding parse_prefixes
parse_prefixes-all_bytes [] v = refl
parse_prefixes-all_bytes (p ∷ ps) v =
    rw
      (
        parse_prefix-prefix_bytes p (all_bytes ps) v.0,
        drop-prefix_bytes p (all_bytes ps) v.0,
        parse_prefixes-all_bytes ps v.1,
      )
      refl

-- Prefixes behind each other are read back.
pub parse_prefixes-encode_prefixes :
    (ps : List Ospfv3Prefix)
    → All IsPrefix ps
    → (encode_prefixes ps >>= λ bytes. parse_prefixes (length ps) bytes) ≡ ok ps
parse_prefixes-encode_prefixes ps v = rw (encode_prefixes_lem ps v) (parse_prefixes-all_bytes ps v)
