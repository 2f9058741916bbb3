-- ===== src/Lsdb/Entries/Laws.antt =====
-- The laws of the association list.
use ospfd.Common.{
  ◌≡◌, refl, ap, arith, Bool, true, false, none, some, List, [], ◌∷◌, if◌then◌else◌, Bool-cases,
  inl, inr,
}
use ospfd.Packet.Lsa.Header.{LsaKey, LsaType, to_u8}
use ospfd.Lsdb.Entries.{key_eq, lookup, insert, remove, keys_where, remove_all, contains}

to_u8-injective : (a b : LsaType) → to_u8 a ≡ to_u8 b → a ≡ b
to_u8-injective a b h = ground arith

pub key_eq→eq : (a b : LsaKey) → key_eq a b ≡ true → a ≡ b
unfolding key_eq
key_eq→eq a b h = ground (arith, to_u8-injective a.ls_type b.ls_type)

pub key_eq_refl : (a : LsaKey) → key_eq a a ≡ true
unfolding key_eq
key_eq_refl a = ground arith

pub key_eq_comm : (a b : LsaKey) → key_eq a b ≡ key_eq b a
unfolding key_eq
key_eq_comm a b = ground arith

-- `ground` is given how `j`, `k` and `i` compare.
key_eq_trans : (i j k : LsaKey) → key_eq i k ≡ true → key_eq i j ≡ key_eq k j
unfolding key_eq
key_eq_trans i j k h = ground arith

key_eq_join : (i k j : LsaKey) → key_eq i j ≡ true → key_eq k j ≡ true → key_eq i k ≡ true
unfolding key_eq
key_eq_join i k j h l = ground arith

module _ {ℓ} {V : Type ℓ} where
  pub lookup-insert :
      (k j : LsaKey) (v : V) (m : List (LsaKey × V))
      → lookup j (insert k v m) ≡ (if key_eq k j then some v else lookup j m)
  unfolding lookup insert
  lookup-insert k j v [] = refl
  lookup-insert k j v ((i, w) ∷ m) =
      ground (arith, key_eq_trans i j k, key_eq_join i k j, lookup-insert k j v m)

  pub lookup-remove :
      (k j : LsaKey) (m : List (LsaKey × V))
      → lookup j (remove k m) ≡ (if key_eq k j then none else lookup j m)
  unfolding lookup remove
  lookup-remove k j [] = ground arith
  lookup-remove k j ((i, w) ∷ m) =
      ground (arith, key_eq_trans i j k, key_eq_join i k j, lookup-remove k j m)

  pub lookup-remove_all :
      (ks : List LsaKey) (j : LsaKey) (m : List (LsaKey × V))
      → lookup j (remove_all ks m) ≡ (if contains j ks then none else lookup j m)
  unfolding remove_all contains
  lookup-remove_all [] j m = refl
  lookup-remove_all (k ∷ ks) j m =
      ground (arith, lookup-remove_all ks j (remove k m), lookup-remove k j m)

  -- Each key occurs once.
  pub data Distinct : List (LsaKey × V) → Type ℓ where
    nil : Distinct []
    cons :
        {k : LsaKey} {v : V} {m : List (LsaKey × V)}
        → lookup k m ≡ none
        → Distinct m
        → Distinct ((k, v) ∷ m)

  lookup_nil : (k : LsaKey) → lookup {V = V} k [] ≡ none
  unfolding lookup
  lookup_nil k = refl

  pub insert-Distinct :
      (k : LsaKey) (v : V) (m : List (LsaKey × V)) → Distinct m → Distinct (insert k v m)
  unfolding insert
  insert-Distinct k v [] d = cons (lookup_nil k) nil
  insert-Distinct k v ((i, w) ∷ m) (cons fresh d) = elim (Bool-cases (key_eq i k)) [
    | inl same ↦ rw same (cons fresh d)
    | inr other ↦
        rw other
          (cons (ground (arith, lookup-insert k i v m, key_eq_comm i k)) (insert-Distinct k v m d))
  ]

  pub remove-Distinct : (k : LsaKey) (m : List (LsaKey × V)) → Distinct m → Distinct (remove k m)
  unfolding remove
  remove-Distinct k [] d = d
  remove-Distinct k ((i, w) ∷ m) (cons fresh d) = elim (Bool-cases (key_eq i k)) [
    | inl same ↦ rw same (remove-Distinct k m d)
    | inr other ↦ rw other (cons (ground (arith, lookup-remove k i m)) (remove-Distinct k m d))
  ]

  pub remove_all-Distinct :
      (ks : List LsaKey) (m : List (LsaKey × V)) → Distinct m → Distinct (remove_all ks m)
  unfolding remove_all
  remove_all-Distinct [] m d = d
  remove_all-Distinct (k ∷ ks) m d = remove_all-Distinct ks (remove k m) (remove-Distinct k m d)

  lookup_eq : (i j : LsaKey) (m : List (LsaKey × V)) → key_eq i j ≡ true → lookup i m ≡ lookup j m
  lookup_eq i j m h = ap (λ (k : LsaKey). lookup k m) (key_eq→eq i j h)

  -- In a map with distinct keys a key is collected exactly if its entry passes the test.
  pub contains-keys_where :
      (p : V → Bool) (j : LsaKey) (m : List (LsaKey × V))
      → Distinct m
      → contains j (keys_where p m) ≡ (elim (lookup j m) [ none ↦ false | some v ↦ p v ])
  unfolding keys_where contains lookup
  contains-keys_where p j [] d = refl
  contains-keys_where p j ((i, w) ∷ m) (cons fresh d) =
      ground (arith, lookup_eq i j m, contains-keys_where p j m d)
