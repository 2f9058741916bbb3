-- ===== src/Packet/Each.antt =====
-- The loop `while off + size <= data.len() { out.push(parse(&data[off..])?); off += size }` of
-- DbDescPacket::parse, LsRequestPacket::parse and LsAckPacket::parse, over the entries of one
-- size behind each other.
use ospfd.Common.{
  ℕ, zero, suc, ◌*◌, ◌≤◌, ◌<◌, ◌≡◌, arith, inl, inr, true, false, le_or_lt, le→leb, List, [], ◌∷◌,
  ◌++◌, All, length, length-drop, drop, leb, Outcome, ok, fault, out_of_fuel, ◌>>=◌, Returns,
  Returns->>=, length-append, drop-length_append,
}

-- The list is `data[off..]`. Each round takes `size` bytes, so its length is fuel enough.
unfoldable pub parse_each_from {ℓ} :
    {A : Type ℓ} → ℕ → (List ℕ → Outcome A) → ℕ → List ℕ → Outcome (List A)
parse_each_from size parse zero d = elim (leb size (length d)) [
  | true ↦ fault out_of_fuel
  | false ↦ ok []
]
parse_each_from size parse (suc fuel) d = elim (leb size (length d)) [
  | false ↦ ok []
  | true ↦ do x ← parse d; rest ← parse_each_from size parse fuel (drop size d); ok (x ∷ rest)
]

unfoldable pub parse_each {ℓ} : {A : Type ℓ} → ℕ → (List ℕ → Outcome A) → List ℕ → Outcome (List A)
parse_each size parse d = parse_each_from size parse (length d) d

unfoldable pub encode_each {ℓ} : {A : Type ℓ} → (A → List ℕ) → List A → List ℕ
encode_each encode [] = []
encode_each encode (x ∷ xs) = encode x ++ encode_each encode xs

module _ {ℓ} {A : Type ℓ} (size : ℕ) (parse : List ℕ → Outcome A) where
  parse_each_from_short :
      (fuel : ℕ) (d : List ℕ) → length d < size → parse_each_from size parse fuel d ≡ ok []
  unfolding parse_each_from
  parse_each_from_short zero d h = ground arith
  parse_each_from_short (suc fuel) d h = ground arith

  parse_each_from_round :
      (fuel : ℕ) (d : List ℕ)
      → size ≤ length d
      → parse_each_from size parse (suc fuel) d
        ≡ (parse d >>= λ x. parse_each_from size parse fuel (drop size d) >>= λ rest. ok (x ∷ rest))
  unfolding parse_each_from
  parse_each_from_round fuel d h = rw (le→leb size (length d) h, parse_each_from)

  parse_each_from-Returns :
      (fuel : ℕ) (d : List ℕ)
      → 1 ≤ size
      → ((e : List ℕ) → Returns (parse e))
      → length d ≤ fuel
      → Returns (parse_each_from size parse fuel d)
  parse_each_from-Returns zero d pos total enough =
      rw (parse_each_from_short zero d (omega arith)) tt
  parse_each_from-Returns (suc fuel) d pos total enough = elim (le_or_lt size (length d)) [
    | inr short ↦ rw (parse_each_from_short (suc fuel) d short) tt
    | inl long ↦ rw (parse_each_from_round fuel d long) (
        Returns->>= (parse d) _ (total d) λ x _.
          Returns->>= (parse_each_from size parse fuel (drop size d)) _
            (parse_each_from-Returns fuel (drop size d) pos total
              (omega (arith, length-drop size d)))
            λ rest _. tt)
  ]

  -- The loop ends on every input.
  pub parse_each-Returns :
      (d : List ℕ)
      → 1 ≤ size
      → ((e : List ℕ) → Returns (parse e))
      → Returns (parse_each size parse d)
  unfolding parse_each
  parse_each-Returns d pos total = parse_each_from-Returns (length d) d pos total (omega arith)

-- What an entry's codec provides: entries of one size that are read back from what is written.
pub record Codec {ℓ κ} {A : Type ℓ} (size : ℕ) (parse : List ℕ → Outcome A) (encode : A → List ℕ)
    (P : A → Type κ) : Type (ℓ ⊔ κ) where
  pub some_bytes : 1 ≤ size
  pub width : (x : A) → length (encode x) ≡ size
  pub inverse : (x : A) (rest : List ℕ) → P x → parse (encode x ++ rest) ≡ ok x

module _ {ℓ κ} {A : Type ℓ} (size : ℕ) (parse : List ℕ → Outcome A) (encode : A → List ℕ)
    (P : A → Type κ) (c : Codec size parse encode P) where
  drop-encode : (x : A) (rest : List ℕ) → drop size (encode x ++ rest) ≡ rest
  drop-encode x rest = rw (← c.width x) (drop-length_append (encode x) rest)

  parse_each_from-encode_each :
      (fuel : ℕ) (xs : List A)
      → All P xs
      → length (encode_each encode xs) ≤ fuel
      → parse_each_from size parse fuel (encode_each encode xs) ≡ ok xs
  unfolding encode_each
  parse_each_from-encode_each fuel [] v enough =
      parse_each_from_short size parse fuel [] (omega (arith, c.some_bytes))
  parse_each_from-encode_each zero (x ∷ xs) v enough =
      absurd
        (omega (arith, length-append (encode x) (encode_each encode xs), c.width x, c.some_bytes))
  parse_each_from-encode_each (suc fuel) (x ∷ xs) v enough =
      let total = length-append (encode x) (encode_each encode xs) in
      let wide = c.width x in
      let pos = c.some_bytes in
      rw (parse_each_from_round size parse fuel (encode x ++ encode_each encode xs) (omega arith)) (
        rw (c.inverse x (encode_each encode xs) v.0) (
          rw (drop-encode x (encode_each encode xs))
            (rw (parse_each_from-encode_each fuel xs v.1 (omega arith)))))

  pub parse_each-encode_each :
      (xs : List A) → All P xs → parse_each size parse (encode_each encode xs) ≡ ok xs
  unfolding parse_each
  parse_each-encode_each xs v =
      parse_each_from-encode_each (length (encode_each encode xs)) xs v (omega arith)

  pub length-encode_each : (xs : List A) → length (encode_each encode xs) ≡ size * length xs
  unfolding encode_each
  length-encode_each [] = omega arith
  length-encode_each (x ∷ xs) =
      omega
        (arith, length-append (encode x) (encode_each encode xs), c.width x, length-encode_each xs)
