-- ===== src/Spf/Tree/Pop.antt =====
-- What `pop` takes from the heap.
use ospfd.Common.{
  suc, true, false, ◌≤◌, ◌≡◌, refl, arith, List, [], ◌∷◌, ◌⊎◌, inl, inr, In, length, Bool-cases,
}
use ospfd.Spf.Tree.{SpfNode, is_less, extract}

-- `n` is taken from the heap `xs`, no costlier than any other, and `rest` is left.
pub record Popped (xs : List SpfNode) (n : SpfNode) (rest : List SpfNode) : Type 0 where
  pub cheapest : (z : SpfNode) → In z xs → n.cost ≤ z.cost
  pub found : In n xs
  pub left : (z : SpfNode) → In z xs → (z ≡ n) ⊎ In z rest
  pub old : (z : SpfNode) → In z rest → In z xs
  pub one_less : length xs ≡ suc (length rest)

module _ {n x y : SpfNode} {rest ys : List SpfNode} where
  keep_first : x.cost ≤ y.cost → Popped (x ∷ ys) n rest → Popped (x ∷ y ∷ ys) n (y ∷ rest)
  keep_first le h = record {
    cheapest = λ z m. ground (arith, h.cheapest z, h.cheapest x);
    found = ground (arith, h.found);
    left = λ z m. ground (arith, h.left z);
    old = λ z m. ground (arith, h.old z);
    one_less = omega (arith, h.one_less);
  }

  take_second : y.cost ≤ x.cost → Popped (y ∷ ys) n rest → Popped (x ∷ y ∷ ys) n (x ∷ rest)
  take_second le h = record {
    cheapest = λ z m. ground (arith, h.cheapest z, h.cheapest y);
    found = ground (arith, h.found);
    left = λ z m. ground (arith, h.left z);
    old = λ z m. ground (arith, h.old z);
    one_less = omega (arith, h.one_less);
  }

less_cost : (x y : SpfNode) → is_less x y ≡ true → y.cost ≤ x.cost
less_cost x y h = ground arith

not_less_cost : (x y : SpfNode) → is_less x y ≡ false → x.cost ≤ y.cost
not_less_cost x y h = ground arith

pub extract-Popped :
    (x : SpfNode) (xs : List SpfNode) → Popped (x ∷ xs) (extract x xs).0 (extract x xs).1
unfolding extract
extract-Popped x [] = record {
  cheapest = λ z m. ground arith;
  found = inl refl;
  left = λ z m. m;
  old = λ z m. inr m;
  one_less = refl;
}
extract-Popped x (y ∷ ys) = elim (Bool-cases (is_less x y)) [
  | inl less ↦ rw less (take_second (less_cost x y less) (extract-Popped y ys))
  | inr not_less ↦ rw not_less (keep_first (not_less_cost x y not_less) (extract-Popped x ys))
]
