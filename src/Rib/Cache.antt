-- ===== src/Rib/Cache.antt =====
-- What the two caches have in common: a HashMap from prefixes to values that is made anew from the
-- routes of a calculation, and compared with the one before. They differ in the value of a route,
-- in how a second route for a prefix is merged, and in the values' `==`.
pub mod Laws
use ospfd.Common.{
  ℕ, suc, ◌+◌, Bool, true, false, not, ◌&&◌, Option, none, some, List, [], ◌∷◌, length, ◌==◌,
  if◌then◌else◌,
}

-- An address is the number of its bits.
pub record RouteKey : Type 0 where
  pub prefix : ℕ
  pub prefix_len : ℕ

abbrev pub key_eq : RouteKey → RouteKey → Bool
key_eq a b = a.prefix == b.prefix && a.prefix_len == b.prefix_len

module _ {V : Type 0} where
  unfoldable pub lookup : RouteKey → List (RouteKey × V) → Option V
  lookup k [] = none
  lookup k ((j, v) ∷ m) = if key_eq j k then some v else lookup k m

  -- `entry(key).and_modify(…).or_insert(val)`
  unfoldable pub offer : (V → V → V) → RouteKey → V → List (RouteKey × V) → List (RouteKey × V)
  offer merge k v [] = (k, v) ∷ []
  offer merge k v ((j, w) ∷ m) =
      let rest = offer merge k v m in if key_eq j k then (j, merge w v) ∷ m else (j, w) ∷ rest

  -- `for route in new_routes`
  unfoldable pub offer_all :
      (V → V → V) → List (RouteKey × V) → List (RouteKey × V) → List (RouteKey × V)
  offer_all merge [] m = m
  offer_all merge ((k, v) ∷ routes) m = offer_all merge routes (offer merge k v m)

  abbrev is_none : Option V → Bool
  is_none none = true
  is_none (some v) = false

  -- The keys of the first that the second has not.
  unfoldable pub count_deleted : List (RouteKey × V) → List (RouteKey × V) → ℕ
  count_deleted [] new_map = 0
  count_deleted ((k, v) ∷ m) new_map =
      (if is_none (lookup k new_map) then 1 else 0) + count_deleted m new_map

  abbrev differs : (V → V → Bool) → V → Option V → Bool
  differs same v none = true
  differs same v (some w) = not (same w v)

  unfoldable pub count_added : (V → V → Bool) → List (RouteKey × V) → List (RouteKey × V) → ℕ
  count_added same installed [] = 0
  count_added same installed ((k, v) ∷ m) =
      (if differs same v (lookup k installed) then 1 else 0) + count_added same installed m

  -- `apply_routes`: the new map, and how many routes were added and deleted.
  unfoldable pub apply_routes :
      (V → V → V)
      → (V → V → Bool)
      → List (RouteKey × V)
      → List (RouteKey × V)
      → List (RouteKey × V) × ℕ × ℕ
  apply_routes merge same installed routes =
      let new_map = offer_all merge routes [] in
      (new_map, count_added same installed new_map, count_deleted installed new_map)
