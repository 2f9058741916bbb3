-- ===== src/Instance/Hello/Known.antt =====
-- What a Hello makes of the interface: the neighbor that sent it is in the map when it is read.
use ospfd.Common.{
  ℕ, ◌≡◌, refl, arith, Bool, true, false, not, ◌&&◌, ◌||◌, none, some, ◌==◌, if◌then◌else◌,
  Ipv4Addr, ok,
}
use ospfd.Packet.Hello.{HelloPacket}
use ospfd.Neighbor.Machine.{Neighbor, new_neighbor}
use ospfd.Interface.Machine.{OspfInterface}
use ospfd.Spf.Table.{get, put, contains, get-put}
use ospfd.Instance.Hello.{
  insert_new, hear, check_two_way, notice_backup, notice_change, process_hello,
}

-- The entry that is there, or a new one.
unfoldable pub entry_or_new : OspfInterface → Ipv4Addr → Ipv4Addr → ℕ → Neighbor
entry_or_new i id src now = elim (get id i.neighbors) [
  | none ↦ new_neighbor id src now
  | some n ↦ n
]

-- The two intervals of the Hello are those of the interface.
unfoldable pub intervals_match : OspfInterface → HelloPacket → Bool
intervals_match i hello =
    hello.hello_interval == i.hello_interval && hello.router_dead_interval == i.dead_interval

-- The sender as the Hello leaves it.
abbrev pub heard : Ipv4Addr → OspfInterface → Ipv4Addr → Ipv4Addr → HelloPacket → ℕ → Neighbor
heard rid i id src hello now =
    check_two_way (insert_new i id src now) (contains rid hello.neighbors)
      (hear (entry_or_new i id src now) hello src now) now

abbrev pub with_heard :
    Ipv4Addr → OspfInterface → Ipv4Addr → Ipv4Addr → HelloPacket → ℕ → OspfInterface
with_heard rid i id src hello now =
    let known = insert_new i id src now in
    record known { neighbors = put id (heard rid i id src hello now) known.neighbors }

abbrev pub noticed :
    Ipv4Addr → OspfInterface → Ipv4Addr → Ipv4Addr → HelloPacket → ℕ → OspfInterface
noticed rid i id src hello now =
    let n = heard rid i id src hello now in
    notice_change (notice_backup (with_heard rid i id src hello now) n now)
      (entry_or_new i id src now) n now

get-insert_new :
    (i : OspfInterface) (id src : Ipv4Addr) (now : ℕ)
    → get id (insert_new i id src now).neighbors ≡ some (entry_or_new i id src now)
unfolding insert_new entry_or_new
get-insert_new i id src now = ground (arith, get-put id id (new_neighbor id src now) i.neighbors)

ok_if :
    {A : Type 0} (a b : Bool) (x y : A)
    → (if not a || not b then ok x else ok y) ≡ ok (if a && b then y else x)
ok_if true true x y = refl
ok_if true false x y = refl
ok_if false b x y = refl

-- A Hello with other intervals leaves the interface as it was; any other is taken without a panic.
pub process_hello-noticed :
    (rid : Ipv4Addr) (i : OspfInterface) (id src : Ipv4Addr) (hello : HelloPacket) (now : ℕ)
    → process_hello rid i id src hello now
      ≡ ok (if intervals_match i hello then noticed rid i id src hello now else i)
unfolding process_hello intervals_match
process_hello-noticed rid i id src hello now =
    let known = insert_new i id src now in
    let n = heard rid i id src hello now in
    let there : get id (put id n known.neighbors) ≡ some n =
      ground (arith, get-put id id n known.neighbors) in
    rw (get-insert_new i id src now, there)
      (ok_if (hello.hello_interval == i.hello_interval)
        (hello.router_dead_interval == i.dead_interval) i (noticed rid i id src hello now))
