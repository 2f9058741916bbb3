-- ===== src/Instance/Hello/TwoWay.antt =====
-- A Hello decides whether its sender is in 2-Way or better.
use ospfd.Common.{
  refl, ◌∙◌, false, inl, inr, Bool-cases, ok, ℕ, ◌≤◌, ◌≡◌, arith, Bool, ◌&&◌, ◌==◌, if◌then◌else◌,
  Ipv4Addr,
}
use ospfd.Packet.Hello.{HelloPacket}
use ospfd.Neighbor.Machine as Peer
use ospfd.Neighbor.Machine.{Neighbor, new_neighbor, is_two_way_or_better, rank}
use ospfd.Interface.Machine.{OspfInterface}
use ospfd.Interface.Machine.Kept.{holds_in, Kept, holds_in-put, holds_in-election}
use ospfd.Spf.Table.{contains}
use ospfd.Instance.Hello.{
  insert_new, hear, check_two_way, notice_backup, notice_change, process_hello,
}
use ospfd.Instance.Hello.Known.{
  entry_or_new, intervals_match, heard, with_heard, noticed, process_hello-noticed,
}

abbrev pub in_two_way : Neighbor → Bool
in_two_way n = is_two_way_or_better n.state

in_two_way-Kept : Kept in_two_way
unfolding Peer.handle_event is_two_way_or_better
in_two_way-Kept n form now h = ground arith

module _ (i : OspfInterface) (now : ℕ) (j : Ipv4Addr) where
  two_way-notice_backup :
      (n : Neighbor)
      → holds_in in_two_way (notice_backup i n now).neighbors j ≡ holds_in in_two_way i.neighbors j
  unfolding notice_backup
  two_way-notice_backup n = ground (arith, holds_in-election in_two_way in_two_way-Kept i now j)

  two_way-notice_change :
      (old n : Neighbor)
      → holds_in in_two_way (notice_change i old n now).neighbors j
        ≡ holds_in in_two_way i.neighbors j
  unfolding notice_change
  two_way-notice_change old n = ground (arith, holds_in-election in_two_way in_two_way-Kept i now j)

hear-state :
    (n : Neighbor) (h : HelloPacket) (src : Ipv4Addr) (now : ℕ) → 2 ≤ rank (hear n h src now).state
unfolding hear Peer.handle_event
hear-state n h src now = ground arith

check_two_way-state :
    (i : OspfInterface) (listed : Bool) (n : Neighbor) (now : ℕ)
    → 2 ≤ rank n.state
    → in_two_way (check_two_way i listed n now) ≡ listed
unfolding check_two_way Peer.handle_event Peer.clear_lists is_two_way_or_better
check_two_way-state i listed n now h = ground arith

two_way-insert_new :
    (i : OspfInterface) (id src j : Ipv4Addr) (now : ℕ)
    → (id == j) ≡ false
    → holds_in in_two_way (insert_new i id src now).neighbors j ≡ holds_in in_two_way i.neighbors j
unfolding insert_new
two_way-insert_new i id src j now other =
    ground (arith, holds_in-put in_two_way id j (new_neighbor id src now) i.neighbors)

two_way-noticed :
    (rid : Ipv4Addr) (i : OspfInterface) (id src : Ipv4Addr) (hello : HelloPacket) (now : ℕ)
    (j : Ipv4Addr)
    → holds_in in_two_way (noticed rid i id src hello now).neighbors j
      ≡ (if id == j then contains rid hello.neighbors else holds_in in_two_way i.neighbors j)
two_way-noticed rid i id src hello now j =
    let listed = contains rid hello.neighbors in
    let old = entry_or_new i id src now in
    let known = insert_new i id src now in
    let n = heard rid i id src hello now in
    let i1 = with_heard rid i id src hello now in
    let said : in_two_way n ≡ listed =
      check_two_way-state known listed (hear old hello src now) now
        (hear-state old hello src now) in
    two_way-notice_change (notice_backup i1 n now) now j old n
    ∙ two_way-notice_backup i1 now j n
    ∙ holds_in-put in_two_way id j n known.neighbors
    ∙ elim (Bool-cases (id == j)) [
      | inl same ↦ rw same said
      | inr other ↦ rw other (two_way-insert_new i id src j now other)
    ]

-- A Hello is taken without a panic. One whose two intervals are those of the interface leaves its
-- sender known and in 2-Way or better exactly if it lists our router id, and every other neighbor
-- on its side of 2-Way, whatever the elections that it causes; a Hello with another interval leaves
-- the interface as it was.
pub process_hello_lem :
    (rid : Ipv4Addr) (i : OspfInterface) (id src : Ipv4Addr) (hello : HelloPacket) (now : ℕ)
    (j : Ipv4Addr)
    → (after : OspfInterface) × (process_hello rid i id src hello now ≡ ok after)
      × (holds_in in_two_way after.neighbors j ≡ (
          if intervals_match i hello && id == j
          then contains rid hello.neighbors
          else holds_in in_two_way i.neighbors j))
      × ((if intervals_match i hello then i else after) ≡ i)
process_hello_lem rid i id src hello now j = (
  if intervals_match i hello then noticed rid i id src hello now else i,
  process_hello-noticed rid i id src hello now,
  elim (Bool-cases (intervals_match i hello)) [
    | inl match ↦ rw match (two_way-noticed rid i id src hello now j)
    | inr other ↦ rw other refl
  ],
  elim (Bool-cases (intervals_match i hello)) [
    | inl match ↦ rw match refl
    | inr other ↦ rw other refl
  ],
)
