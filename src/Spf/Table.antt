-- ===== src/Spf/Table.antt =====
-- A HashMap keyed by addresses, as an association list: `get`, `insert`, and `collect` of pairs.
use ospfd.Common.{
  ◌⊎◌, ℕ, inl, inr, In, Bool-cases, ◌≡◌, refl, arith, Bool, false, ◌||◌, Option, none, some, List,
  [], ◌∷◌, ◌==◌, if◌then◌else◌,
}

module _ {ℓ} {V : Type ℓ} where
  unfoldable pub get : ℕ → List (ℕ × V) → Option V
  get k [] = none
  get k ((j, v) ∷ m) = if j == k then some v else get k m

  unfoldable pub put : ℕ → V → List (ℕ × V) → List (ℕ × V)
  put k v [] = (k, v) ∷ []
  put k v ((j, w) ∷ m) = let rest = put k v m in if j == k then (j, v) ∷ m else (j, w) ∷ rest

  pub get-put :
      (k j : ℕ) (v : V) (m : List (ℕ × V))
      → get j (put k v m) ≡ (if k == j then some v else get j m)
  unfolding get put
  get-put k j v [] = refl
  get-put k j v ((i, w) ∷ m) = ground (arith, get-put k j v m)

  -- Each key occurs once.
  pub data Distinct : List (ℕ × V) → Type ℓ where
    nil : Distinct []
    cons : {k : ℕ} {v : V} {m : List (ℕ × V)} → get k m ≡ none → Distinct m → Distinct ((k, v) ∷ m)

  get_nil : (k : ℕ) → get k [] ≡ none
  unfolding get
  get_nil k = refl

  pub put-Distinct : (k : ℕ) (v : V) (m : List (ℕ × V)) → Distinct m → Distinct (put k v m)
  unfolding put
  put-Distinct k v [] d = cons (get_nil k) nil
  put-Distinct k v ((i, w) ∷ m) (cons fresh d) = elim (Bool-cases (i == k)) [
    | inl same ↦ rw same (cons fresh d)
    | inr other ↦ rw other (cons (ground (arith, get-put k i v m)) (put-Distinct k v m d))
  ]

  -- `collect` inserts the pairs one by one: the last of two with one key stays.
  unfoldable pub collect : List (ℕ × V) → List (ℕ × V) → List (ℕ × V)
  collect m [] = m
  collect m ((k, v) ∷ kvs) = collect (put k v m) kvs

-- A HashSet of addresses.
unfoldable pub contains : ℕ → List ℕ → Bool
contains k [] = false
contains k (j ∷ js) = j == k || contains k js

module _ {V : Type 0} where
  absent-In : (k : ℕ) (v : V) (m : List (ℕ × V)) → get k m ≡ none → In (k, v) m → ⊥
  unfolding get
  absent-In k v [] h i = i
  absent-In k v ((j, w) ∷ m) h (inl e) = ground arith
  absent-In k v ((j, w) ∷ m) h (inr i) = absent-In k v m (ground arith) i

  -- What stands in a table with distinct keys is what is found.
  pub get-In : (k : ℕ) (v : V) (m : List (ℕ × V)) → Distinct m → In (k, v) m → get k m ≡ some v
  unfolding get
  get-In k v [] d i = absurd i
  get-In k v ((j, w) ∷ m) (cons fresh d) (inl e) = ground arith
  get-In k v ((j, w) ∷ m) (cons fresh d) (inr i) = elim (Bool-cases (j == k)) [
    | inl same ↦ absurd (absent-In k v m (ground arith) i)
    | inr other ↦ rw other (get-In k v m d i)
  ]

  pub In-get : (k : ℕ) (v : V) (m : List (ℕ × V)) → get k m ≡ some v → In (k, v) m
  unfolding get
  In-get k v [] h = cc
  In-get k v ((j, w) ∷ m) h = elim (Bool-cases (j == k)) [
    | inl same ↦ inl (ground arith)
    | inr other ↦ let h' : get k m ≡ some v = rw other at h in inr (In-get k v m h')
  ]

  pub collect-In :
      (k : ℕ) (v : V) (m kvs : List (ℕ × V))
      → get k (collect m kvs) ≡ some v
      → (get k m ≡ some v) ⊎ In (k, v) kvs
  unfolding collect
  collect-In k v m [] h = inl h
  collect-In k v m ((j, w) ∷ kvs) h = elim (collect-In k v (put j w m) kvs h) [
    | inr later ↦ inr (inr later)
    | inl here ↦ elim (Bool-cases (j == k)) [
      | inl same ↦ inr (inl (ground (arith, get-put j k w m)))
      | inr other ↦ inl (ground (arith, get-put j k w m))
    ]
  ]
