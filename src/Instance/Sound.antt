-- ===== src/Instance/Sound.antt =====
-- What every handler of the instance keeps, and how it goes through the instance's lists.
pub mod Neighbors
pub mod Databases
pub mod Handlers
pub mod Origination
pub mod Updates
pub mod Externals
pub mod Timers
pub mod Loop
use ospfd.Common.{
  ℕ, zero, suc, ◌<◌, ◌≡◌, refl, arith, Bool-cases, inl, inr, Option, none, some, List, [], ◌∷◌, All,
  set, ◌==◌, Ipv4Addr,
}
use ospfd.Neighbor.Machine.{Neighbor, rank}
use ospfd.Interface.Machine.{OspfInterface}
use ospfd.Area.{Area}
use ospfd.Lsdb.Store.Install.{IsValid}
use ospfd.Spf.Table.{get, put}
use ospfd.Instance.State.{OspfInstance, get_elem?}

-- Below ExStart nothing is requested, retransmitted or described.
pub record HasNoLists (n : Neighbor) : Type 0 where
  pub requests : n.ls_request_list ≡ []
  pub retransmissions : n.ls_retransmit_list ≡ []
  pub summaries : n.db_summary_list ≡ []

abbrev pub IsQuiet : Neighbor → Type 0
IsQuiet n = rank n.state < 4 → HasNoLists n

module _ {V : Type 0} (Q : V → Type 0) where
  -- Of every value of a table.
  abbrev pub Values : List (ℕ × V) → Type 0
  Values [] = Unit {0}
  Values ((k, v) ∷ m) = Q v × Values m

  pub put-Values : (k : ℕ) (v : V) (m : List (ℕ × V)) → Q v → Values m → Values (put k v m)
  unfolding put
  put-Values k v [] q h = (q, tt)
  put-Values k v ((j, w) ∷ m) q h = elim (Bool-cases (j == k)) [
    | inl same ↦ rw same (q, h.1)
    | inr other ↦ rw other (h.0, put-Values k v m q h.1)
  ]

  pub get-Values : (k : ℕ) (v : V) (m : List (ℕ × V)) → Values m → get k m ≡ some v → Q v
  unfolding get
  get-Values k v [] h e = cc
  get-Values k v ((j, w) ∷ m) h e = elim (Bool-cases (j == k)) [
    | inl same ↦ ground (arith, h.0)
    | inr other ↦ get-Values k v m h.1 (ground arith)
  ]

module _ {A : Type 0} (P : A → Type 0) where
  pub set-All : (xs : List A) (i : ℕ) (x : A) → All P xs → P x → All P (set xs i x)
  set-All [] i x h p = tt
  set-All (y ∷ ys) zero x h p = (p, h.1)
  set-All (y ∷ ys) (suc i) x h p = (h.0, set-All ys i x h.1 p)

  pub get_elem-All : (xs : List A) (i : ℕ) (x : A) → All P xs → get_elem? xs i ≡ some x → P x
  get_elem-All [] i x h e = cc
  get_elem-All (y ∷ ys) zero x h e = ground (arith, h.0)
  get_elem-All (y ∷ ys) (suc i) x h e = get_elem-All ys i x h.1 e

abbrev pub HasQuietNeighbors : OspfInterface → Type 0
HasQuietNeighbors i = Values IsQuiet i.neighbors

abbrev pub HasValidDatabase : Area → Type 0
HasValidDatabase a = IsValid a.lsdb

-- Every neighbor below ExStart is quiet, and every database is valid.
pub record IsSound (inst : OspfInstance) : Type 0 where
  pub neighbors : All HasQuietNeighbors inst.interfaces
  pub areas : Values HasValidDatabase inst.areas
  pub external : IsValid inst.as_external_lsdb
