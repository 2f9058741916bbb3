-- ===== src/Instance/Timers/Silence.antt =====
-- What the inactivity timers do to the neighbors.
use ospfd.Common.{
  ℕ, ◌≡◌, refl, arith, Bool, true, false, ◌&&◌, ◌||◌, Option, none, some, List, [], ◌∷◌, ◌==◌,
  if◌then◌else◌, Ipv4Addr,
}
use ospfd.Neighbor.Machine as Peer
use ospfd.Neighbor.Machine.{Neighbor, NeighborState, state_eq, inactivity_timer}
use ospfd.Interface.Machine.{OspfInterface}
use ospfd.Interface.Machine.Kept.{holds_in, Kept, holds_in-put, holds_in-election}
use ospfd.Spf.Table.{get, put, contains, Distinct, cons}
use ospfd.Instance.Timers.{is_expired, expired, expire_at, expire, expire_all, check_interface}

abbrev pub is_down : Neighbor → Bool
is_down n = state_eq n.state NeighborState.down

abbrev pub known : Neighbor → Bool
known n = true

known-Kept : Kept known
known-Kept n form now h = refl

unknown_lem :
    (p : Neighbor → Bool) (ns : List (Ipv4Addr × Neighbor)) (id : Ipv4Addr)
    → get id ns ≡ none
    → holds_in p ns id ≡ false
unfolding holds_in
unknown_lem p ns id h = ground arith

known_lem :
    (ns : List (Ipv4Addr × Neighbor)) (id : Ipv4Addr) (n : Neighbor)
    → get id ns ≡ some n
    → holds_in known ns id ≡ true
unfolding holds_in
known_lem ns id n h = ground arith

-- A test that `AdjOk?` does not change and that `InactivityTimer` decides.
module _ (p : Neighbor → Bool) (kept : Kept p) (b : Bool)
    (sets : (n : Neighbor) (now : ℕ)
      → p (Peer.handle_event n inactivity_timer false now).0 ≡ b) where
  expire_at-holds :
      (i : OspfInterface) (id : Ipv4Addr) (now : ℕ) (j : Ipv4Addr) (n : Neighbor)
      → holds_in p (expire_at i id now (some n)).neighbors j
        ≡ (if id == j then b else holds_in p i.neighbors j)
  expire_at-holds i id now j n =
      let dead = (Peer.handle_event n inactivity_timer false now).0 in
      let next = record i { neighbors = put id dead i.neighbors } in
      ground (
        arith,
        holds_in-election p kept next now j,
        holds_in-put p id j dead i.neighbors,
        sets n now,
      )

  expire-holds :
      (i : OspfInterface) (id : Ipv4Addr) (now : ℕ) (j : Ipv4Addr)
      → holds_in p (expire i id now).neighbors j
        ≡ (if id == j then b && holds_in known i.neighbors j else holds_in p i.neighbors j)
  unfolding expire
  expire-holds i id now j = by_found (get id i.neighbors) refl
    where
      by_found :
          (o : Option Neighbor)
          → get id i.neighbors ≡ o
          → holds_in p (expire_at i id now o).neighbors j
            ≡ (if id == j then b && holds_in known i.neighbors j else holds_in p i.neighbors j)
      by_found none h =
          ground (arith, unknown_lem p i.neighbors id h, unknown_lem known i.neighbors id h)
      by_found (some n) h =
          ground (arith, expire_at-holds i id now j n, known_lem i.neighbors id n h)

known-expire :
    (i : OspfInterface) (id : Ipv4Addr) (now : ℕ) (j : Ipv4Addr)
    → holds_in known (expire i id now).neighbors j ≡ holds_in known i.neighbors j
known-expire i id now j =
    ground (arith, expire-holds known known-Kept true (λ n now. refl) i id now j)

module _ (p : Neighbor → Bool) (kept : Kept p) (b : Bool)
    (sets : (n : Neighbor) (now : ℕ)
      → p (Peer.handle_event n inactivity_timer false now).0 ≡ b) where
  expire_all-holds :
      (i : OspfInterface) (ids : List Ipv4Addr) (now : ℕ) (j : Ipv4Addr)
      → holds_in p (expire_all i ids now).neighbors j
        ≡ (if contains j ids then b && holds_in known i.neighbors j else holds_in p i.neighbors j)
  unfolding expire_all contains
  expire_all-holds i [] now j = refl
  expire_all-holds i (id ∷ ids) now j = ground (
    arith,
    expire_all-holds (expire i id now) ids now j,
    expire-holds p kept b sets i id now j,
    known-expire i id now j,
  )

module _ (dead now : ℕ) where
  expired-holds :
      (ns : List (Ipv4Addr × Neighbor)) (j : Ipv4Addr)
      → Distinct ns
      → contains j (expired dead now ns) ≡ holds_in (is_expired dead now) ns j
  unfolding expired contains holds_in get
  expired-holds [] j d = refl
  expired-holds ((k, n) ∷ ns) j (cons fresh d) =
      ground (arith, expired-holds ns j d, expired-holds ns k d)

  is_expired-Kept : Kept (is_expired dead now)
  unfolding is_expired Peer.handle_event
  is_expired-Kept n form t h = ground arith

  is_expired_lem :
      (n : Neighbor) (t : ℕ)
      → is_expired dead now (Peer.handle_event n inactivity_timer false t).0 ≡ false
  unfolding is_expired Peer.handle_event Peer.clear_lists
  is_expired_lem n t = ground arith

  expired_known :
      (ns : List (Ipv4Addr × Neighbor)) (j : Ipv4Addr)
      → holds_in (is_expired dead now) ns j ≡ true
      → holds_in known ns j ≡ true
  unfolding holds_in
  expired_known ns j h = ground arith

is_down-Kept : Kept is_down
unfolding Peer.handle_event
is_down-Kept n form now h = ground arith

is_down_lem :
    (n : Neighbor) (t : ℕ) → is_down (Peer.handle_event n inactivity_timer false t).0 ≡ true
unfolding Peer.handle_event Peer.clear_lists
is_down_lem n t = ground arith

-- After the timers of an interface whose neighbors are under different keys have been looked at, no
-- neighbor is in another state than Down that was not heard for the dead interval; and those that are Down are exactly those that were and
-- those that had expired, whatever the elections between.
pub check_interface_lem :
    (i : OspfInterface) (now : ℕ) (j : Ipv4Addr)
    → Distinct i.neighbors
    → (holds_in (is_expired i.dead_interval now) (check_interface i now).neighbors j ≡ false)
      × (holds_in is_down (check_interface i now).neighbors j ≡ (
          holds_in is_down i.neighbors j
          || holds_in (is_expired i.dead_interval now) i.neighbors j))
unfolding check_interface
check_interface_lem i now j d =
    let dead = i.dead_interval in
    let ids = expired dead now i.neighbors in
    let same = expired-holds dead now i.neighbors j d in
    (
      ground (
        arith,
        same,
        expire_all-holds (is_expired dead now) (is_expired-Kept dead now) false
            (is_expired_lem dead now) i ids now j,
      ),
      ground (
        arith,
        same,
        expired_known dead now i.neighbors j,
        expire_all-holds is_down is_down-Kept true is_down_lem i ids now j,
      ),
    )
