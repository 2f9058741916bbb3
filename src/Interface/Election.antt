-- ===== src/Interface/Election.antt =====
-- The DR/BDR election: `OspfInterface::run_dr_election` (src/proto/interface.rs, lines 319-463)
-- over the candidates that it collects.
pub mod Maximum
pub mod Independence
pub mod Roles
use Prim.Native.Nat.{compare, Ordering}
use ospfd.Common.{
  ℕ, zero, suc, Bool, true, false, not, ◌&&◌, ◌||◌, Option, none, some, List, [], ◌∷◌, ◌++◌, ltb,
  ◌==◌, if◌then◌else◌, Ipv4Addr, unspecified,
}
use ospfd.Packet.Lsa.Header.Recency.{then_with}

pub record Candidate : Type 0 where
  pub router_id : Ipv4Addr
  pub ip_address : Ipv4Addr
  pub priority : ℕ
  pub declared_dr : Ipv4Addr
  pub declared_bdr : Ipv4Addr

-- `filter`, and `max_by`, which keeps the later one of two equal elements.
abbrev pub filter {ℓ} : {A : Type ℓ} → (A → Bool) → List A → List A
filter p [] = []
filter p (x ∷ xs) = let rest = filter p xs in if p x then x ∷ rest else rest

abbrev pub max_from {ℓ} : {A : Type ℓ} → (A → A → Ordering) → A → List A → A
max_from cmp best [] = best
max_from cmp best (x ∷ xs) = max_from cmp (elim (cmp best x) [ Ordering.gt ↦ best | _ ↦ x ]) xs

abbrev pub max_by {ℓ} : {A : Type ℓ} → (A → A → Ordering) → List A → Option A
max_by cmp [] = none
max_by cmp (x ∷ xs) = some (max_from cmp x xs)

-- The derived order of bool: false before true.
abbrev pub compare_bool : Bool → Bool → Ordering
compare_bool true true = Ordering.eq
compare_bool true false = Ordering.gt
compare_bool false true = Ordering.lt
compare_bool false false = Ordering.eq

-- Priority first, then router id.
abbrev pub by_priority : Candidate → Candidate → Ordering
by_priority a b = then_with (compare a.priority b.priority) (compare a.router_id b.router_id)

abbrev pub claims_dr : Candidate → Bool
claims_dr c = c.declared_dr == c.ip_address

abbrev pub claims_bdr : Candidate → Bool
claims_bdr c = c.declared_bdr == c.ip_address

-- Those that claim to be BDR first.
abbrev pub by_bdr_claim : Candidate → Candidate → Ordering
by_bdr_claim a b = then_with (compare_bool (claims_bdr a) (claims_bdr b)) (by_priority a b)

abbrev pub eligible : Candidate → Bool
eligible c = ltb 0 c.priority

abbrev pub address_of : Option Candidate → Option Ipv4Addr
address_of none = none
address_of (some c) = some c.ip_address

abbrev pub or_else : Option Ipv4Addr → Option Ipv4Addr → Option Ipv4Addr
or_else none o = o
or_else (some a) o = some a

abbrev pub or_unspecified : Option Ipv4Addr → Ipv4Addr
or_unspecified none = unspecified
or_unspecified (some a) = a

-- `Some(a) == o`
abbrev pub is_address : Ipv4Addr → Option Ipv4Addr → Bool
is_address a none = false
is_address a (some b) = a == b

-- Step 2.
unfoldable pub elect_bdr : List Candidate → Option Ipv4Addr
elect_bdr cs =
    address_of (max_by by_bdr_claim (filter (λ c. not (claims_dr c)) (filter eligible cs)))

-- Step 3: `dr_declarer`.
unfoldable pub elect_declarer : List Candidate → Option Ipv4Addr
elect_declarer cs = address_of (max_by by_priority (filter claims_dr (filter eligible cs)))

-- The BDR elected again, when the old candidate was promoted to DR.
unfoldable pub elect_other : List Candidate → Ipv4Addr → Option Ipv4Addr
elect_other cs new_dr =
    address_of (max_by by_priority (filter (λ c. eligible c && not (c.ip_address == new_dr)) cs))

-- One iteration's result: `(new_dr, new_bdr)`.
unfoldable pub elect : List Candidate → Ipv4Addr × Ipv4Addr
elect cs =
    let bdr = elect_bdr cs in
    let new_dr = or_unspecified (or_else (elect_declarer cs) bdr) in
    (
      new_dr,
      if is_address new_dr bdr then or_unspecified (elect_other cs new_dr) else or_unspecified bdr,
    )

-- Our own declarations in an iteration.
unfoldable pub self_candidate : Ipv4Addr → Ipv4Addr → ℕ → Ipv4Addr × Ipv4Addr → Candidate
self_candidate rid addr pri (dr, bdr) = record {
  router_id = rid;
  ip_address = addr;
  priority = pri;
  declared_dr = dr;
  declared_bdr = bdr;
}

abbrev bool_ne : Bool → Bool → Bool
bool_ne a b = if a then not b else b

-- Step 4: whether our own role changed though we had one, so that the election is run once more.
unfoldable pub role_changed : Ipv4Addr → Ipv4Addr × Ipv4Addr → Ipv4Addr × Ipv4Addr → Bool
role_changed addr (self_dr, self_bdr) (new_dr, new_bdr) =
    (self_dr == addr || self_bdr == addr)
    && (bool_ne (self_dr == addr) (new_dr == addr) || bool_ne (self_bdr == addr) (new_bdr == addr))

-- The loop, with the iterations that may follow this one: one at most.
unfoldable pub election_loop :
    ℕ
    → (Ipv4Addr × Ipv4Addr → List Candidate)
    → Ipv4Addr
    → Ipv4Addr × Ipv4Addr
    → Ipv4Addr × Ipv4Addr
election_loop zero candidates addr self = elect (candidates self)
election_loop (suc more) candidates addr self =
    let new = elect (candidates self) in
    elim (role_changed addr self new) [
      | true ↦ election_loop more candidates addr new
      | false ↦ new
    ]
