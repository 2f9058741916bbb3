-- ===== src/PacketV3/External/RoundTrip.antt =====
-- The AS-External-LSA body is read back from what is written.
use Prim.Native.Nat.{bit_and}
use ospfd.Common.{
  ℕ, ◌+◌, ◌≡◌, refl, arith, Bool, true, false, not, Option, none, some, List, [], ◌∷◌, ◌++◌, length,
  length-append, take, drop, take-length_append, drop-length_append, ltb, ltb-false, ◌==◌, IsU32,
  be32, u8_at, from_be32-be32, ok, ◌>>=◌,
}
use mathlib.Core.Path.{subst}
use mathlib.Core.List.{append_assoc, append-nil}
use ospfd.PacketV3.Bits24.{IsU24, be24, u24_at, from_be24-be24}
use ospfd.PacketV3.Prefix.{Ospfv3Prefix, parse_prefix, prefix_wire_size}
use ospfd.PacketV3.Prefix.RoundTrip.{
  IsPrefix, length-octets_of, prefix_bytes, encode_prefix_lem, parse_prefix-prefix_bytes,
}
use ospfd.PacketV3.External.{
  AsExternalLsaV3, octets_at, word_at, parse_external_v3, external_flags, optional_octets,
  optional_word, encode_external_v3,
}

-- The flags tell which fields are there.
abbrev OctetsFor : Bool → Option (List ℕ) → Type 0
OctetsFor false none = Unit {0}
OctetsFor true (some a) = length a ≡ 16
OctetsFor _ _ = ⊥

abbrev WordFor : Bool → Option ℕ → Type 0
WordFor false none = Unit {0}
WordFor true (some w) = IsU32 w
WordFor _ _ = ⊥

pub record IsExternalV3 (l : AsExternalLsaV3) : Type 0 where
  pub metric : IsU24 l.metric
  pub prefix : IsPrefix l.prefix
  pub referenced_ls_type : l.prefix.prefix_or_metric ≡ l.referenced_ls_type
  pub forwarding_address : OctetsFor l.forwarding_present l.forwarding_address
  pub external_route_tag : WordFor l.tag_present l.external_route_tag
  pub referenced_link_state_id :
      WordFor (not (l.referenced_ls_type == 0)) l.referenced_link_state_id

flags_back :
    (e f t : Bool)
    → (not (bit_and (external_flags e f t) 4 == 0) ≡ e)
      × (not (bit_and (external_flags e f t) 2 == 0) ≡ f)
      × (not (bit_and (external_flags e f t) 1 == 0) ≡ t)
flags_back true true true = (refl, refl, refl)
flags_back true true false = (refl, refl, refl)
flags_back true false true = (refl, refl, refl)
flags_back true false false = (refl, refl, refl)
flags_back false true true = (refl, refl, refl)
flags_back false true false = (refl, refl, refl)
flags_back false false true = (refl, refl, refl)
flags_back false false false = (refl, refl, refl)

-- An optional field behind the bytes before it.
octets_at-optional_octets :
    (b : Bool) (o : Option (List ℕ)) (before rest : List ℕ)
    → OctetsFor b o
    → octets_at b (before ++ (optional_octets o ++ rest)) (length before)
      ≡ ok (o, length (before ++ optional_octets o))
octets_at-optional_octets false none before rest h = rw (length-append before []) (ground arith)
octets_at-optional_octets false (some a) before rest h = absurd h
octets_at-optional_octets true none before rest h = absurd h
octets_at-optional_octets true (some a) before rest h =
    let size = length-append before (a ++ rest) in
    let size' = length-append a rest in
    let fits : ltb (length (before ++ (a ++ rest))) (length before + 16) ≡ false =
      ltb-false _ _ (omega arith) in
    let whole : take 16 (a ++ rest) ≡ a =
      subst (λ n. take n (a ++ rest) ≡ a) h (take-length_append a rest) in
    let last : length before + 16 ≡ length (before ++ a) = omega (arith, length-append before a) in
    rw (fits, drop-length_append before (a ++ rest), whole, last) refl

word_at-optional_word :
    (b : Bool) (o : Option ℕ) (before rest : List ℕ)
    → WordFor b o
    → word_at b (before ++ (optional_word o ++ rest)) (length before)
      ≡ ok (o, length (before ++ optional_word o))
word_at-optional_word false none before rest h = rw (length-append before []) (ground arith)
word_at-optional_word false (some w) before rest h = absurd h
word_at-optional_word true none before rest h = absurd h
word_at-optional_word true (some w) before rest h =
    let size = length-append before (be32 w ++ rest) in
    let fits : ltb (length (before ++ (be32 w ++ rest))) (length before + 4) ≡ false =
      ltb-false _ _ (omega arith) in
    let last : length before + 4 ≡ length (before ++ be32 w) =
      omega (arith, length-append before (be32 w)) in
    rw (fits, drop-length_append before (be32 w ++ rest)) (rw (from_be32-be32 w h, last) refl)

same_prefix :
    (p : Ospfv3Prefix) (n : ℕ) → p.prefix_or_metric ≡ n → record p { prefix_or_metric = n } ≡ p
same_prefix p n e = rw (← e) refl

module _ (l : AsExternalLsaV3) (v : IsExternalV3 l) where
  front : List ℕ
  front =
      external_flags l.metric_type_2 l.forwarding_present l.tag_present
      ∷ (be24 l.metric ++ prefix_bytes l.prefix)

  tail_bytes : List ℕ
  tail_bytes =
      optional_octets l.forwarding_address
      ++ (optional_word l.external_route_tag ++ optional_word l.referenced_link_state_id)

  all_fields : List ℕ
  all_fields = front ++ tail_bytes

  encode_external_v3_lem : encode_external_v3 l ≡ ok all_fields
  unfolding encode_external_v3 all_fields front tail_bytes
  encode_external_v3_lem =
      rw
        (
          same_prefix l.prefix l.referenced_ls_type v.referenced_ls_type,
          encode_prefix_lem l.prefix v.prefix,
        )
        refl

  abbrev fao : List ℕ
  fao = optional_octets l.forwarding_address

  abbrev tago : List ℕ
  tago = optional_word l.external_route_tag

  abbrev ido : List ℕ
  ido = optional_word l.referenced_link_state_id

  length-front : 4 + prefix_wire_size l.prefix ≡ length front
  unfolding front
  length-front = omega (arith, length-octets_of l.prefix v.prefix)

  long_enough : ltb (length all_fields) 4 ≡ false
  unfolding all_fields front
  long_enough = ltb-false _ _ (omega arith)

  flags_at :
      u8_at all_fields 0 ≡ ok (external_flags l.metric_type_2 l.forwarding_present l.tag_present)
  unfolding all_fields front
  flags_at = refl

  metric_at : u24_at all_fields 1 ≡ ok l.metric
  unfolding all_fields front
  metric_at = rw (from_be24-be24 l.metric v.metric) refl

  prefix_at : parse_prefix (drop 4 all_fields) ≡ ok (l.prefix, prefix_wire_size l.prefix)
  unfolding all_fields front
  prefix_at = parse_prefix-prefix_bytes l.prefix tail_bytes v.prefix

  forwarding_at :
      octets_at l.forwarding_present all_fields (4 + prefix_wire_size l.prefix)
      ≡ ok (l.forwarding_address, length (front ++ fao))
  unfolding all_fields tail_bytes
  forwarding_at = rw length-front (
      octets_at-optional_octets l.forwarding_present l.forwarding_address front (tago ++ ido)
        v.forwarding_address)

  tag_at :
      word_at l.tag_present all_fields (length (front ++ fao))
      ≡ ok (l.external_route_tag, length ((front ++ fao) ++ tago))
  unfolding all_fields tail_bytes
  tag_at = rw (← append_assoc front fao (tago ++ ido)) (
      word_at-optional_word l.tag_present l.external_route_tag (front ++ fao) ido
        v.external_route_tag)

  all_fields_lem : ((front ++ fao) ++ tago) ++ (ido ++ []) ≡ all_fields
  unfolding all_fields tail_bytes
  all_fields_lem = simp (append_assoc, append-nil)

  id_at :
      word_at (not (l.referenced_ls_type == 0)) all_fields (length ((front ++ fao) ++ tago))
      ≡ ok (l.referenced_link_state_id, length (((front ++ fao) ++ tago) ++ ido))
  id_at = rw (← all_fields_lem) (
      word_at-optional_word (not (l.referenced_ls_type == 0)) l.referenced_link_state_id
        ((front ++ fao) ++ tago) [] v.referenced_link_state_id)

  parse_external_v3_lem : parse_external_v3 all_fields ≡ ok l
  unfolding parse_external_v3
  parse_external_v3_lem =
      let flags = flags_back l.metric_type_2 l.forwarding_present l.tag_present in
      rw (long_enough, flags_at, metric_at, prefix_at)
        (rw (flags.0, flags.1, flags.2, forwarding_at)
          (rw (tag_at, v.referenced_ls_type) (rw id_at refl)))

-- An AS-External-LSA body whose flags tell which of the forwarding address and the tag are there, with
-- a metric of 24 bits, a prefix of at most 128 bits with a blank end and a referenced LS type that is
-- also the 16-bit field of the prefix, and with a referenced Link State ID exactly if that type is not 0,
-- is written without a panic and read back. The address has 16 octets, tag and id fit a u32.
pub parse_external_v3-encode_external_v3 :
    (l : AsExternalLsaV3) → IsExternalV3 l → (encode_external_v3 l >>= parse_external_v3) ≡ ok l
parse_external_v3-encode_external_v3 l v =
    rw (encode_external_v3_lem l v) (parse_external_v3_lem l v)
