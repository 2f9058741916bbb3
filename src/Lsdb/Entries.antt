-- ===== src/Lsdb/Entries.antt =====
-- The HashMap from LSA keys to entries, as an association list.
pub mod Laws
use ospfd.Common.{
  ℕ, Bool, true, false, not, ◌&&◌, ◌||◌, Option, none, some, List, [], ◌∷◌, ◌==◌, if◌then◌else◌,
}
use ospfd.Packet.Lsa.Header.{LsaKey, to_u8}

-- The derived `==` of LsaKey.
unfoldable pub key_eq : LsaKey → LsaKey → Bool
key_eq a b =
    to_u8 a.ls_type == to_u8 b.ls_type
    && (a.link_state_id == b.link_state_id && a.advertising_router == b.advertising_router)

pub contains : LsaKey → List LsaKey → Bool
contains k [] = false
contains k (j ∷ js) = key_eq j k || contains k js

module _ {ℓ} {V : Type ℓ} where
  unfoldable pub lookup : LsaKey → List (LsaKey × V) → Option V
  lookup k [] = none
  lookup k ((j, v) ∷ m) = if key_eq j k then some v else lookup k m

  pub insert : LsaKey → V → List (LsaKey × V) → List (LsaKey × V)
  insert k v [] = (k, v) ∷ []
  insert k v ((j, w) ∷ m) =
      let rest = insert k v m in if key_eq j k then (j, v) ∷ m else (j, w) ∷ rest

  pub remove : LsaKey → List (LsaKey × V) → List (LsaKey × V)
  remove k [] = []
  remove k ((j, w) ∷ m) = let rest = remove k m in if key_eq j k then rest else (j, w) ∷ rest

  -- The keys of the entries that pass a test: `iter().filter(…).map(|(k, _)| *k).collect()`.
  pub keys_where : (V → Bool) → List (LsaKey × V) → List LsaKey
  keys_where p [] = []
  keys_where p ((j, w) ∷ m) = let rest = keys_where p m in if p w then j ∷ rest else rest

  -- `for key in keys { map.remove(key) }`
  pub remove_all : List LsaKey → List (LsaKey × V) → List (LsaKey × V)
  remove_all [] m = m
  remove_all (k ∷ ks) m = remove_all ks (remove k m)
