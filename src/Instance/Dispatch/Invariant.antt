-- ===== src/Instance/Dispatch/Invariant.antt =====
-- Every packet that arrives keeps the instance sound.
use ospfd.Common.{
  Ensures->>=, ℕ, ◌≡◌, refl, Option, none, some, List, ◌==◌, Ipv4Addr, Bool-cases, inl, inr,
  Ensures, Returns, Bool, true, false, zero, suc, ◌+◌, arith, [], ◌∷◌,
}
use mathlib.Core.Path.{subst}
use ospfd.Packet.Codec.{OspfPacket, header_of}
use ospfd.Interface.Machine.{OspfInterface}
use ospfd.Instance.State.{OspfInstance, Response, get_elem?, position_from, find_interface}
use ospfd.Instance.Hello.{process_hello}
use ospfd.Instance.Hello.Known.{process_hello-noticed}
use ospfd.Instance.Dispatch.{handle_packet, on_interface, on_index, process_packet}
use ospfd.Instance.Sound.{HasQuietNeighbors, get_elem-All, IsSound}
use ospfd.Instance.Sound.Handlers.{
  set_interface-IsSound, process_hello-Values, process_dd-IsSound, process_lsr-IsSound,
}
use ospfd.Instance.Sound.Updates.{process_lsu-Sound}

abbrev pub SoundAfter : OspfInstance × List Response → Type 0
SoundAfter p = IsSound p.0

module _ (inst : OspfInstance) (src : Ipv4Addr) (now : ℕ) (s : IsSound inst) where
  handle_packet-Sound :
      (idx : ℕ) (i : OspfInterface) (p : OspfPacket)
      → HasQuietNeighbors i
      → Ensures SoundAfter (handle_packet inst idx i src p now)
  unfolding handle_packet
  handle_packet-Sound idx i (OspfPacket.hello h p) q =
      Ensures->>= HasQuietNeighbors SoundAfter
        (process_hello inst.router_id i h.router_id src p now) _
        (process_hello-Values inst.router_id i h.router_id src p now q)
        (λ after k. set_interface-IsSound inst idx after k s)
  handle_packet-Sound idx i (OspfPacket.database_description h p) q =
      process_dd-IsSound inst idx i src h p now q s
  handle_packet-Sound idx i (OspfPacket.link_state_request h p) q =
      process_lsr-IsSound inst idx i src h p now q s
  handle_packet-Sound idx i (OspfPacket.link_state_update h p) q =
      process_lsu-Sound inst idx i src h p now s
  handle_packet-Sound idx i (OspfPacket.link_state_ack h p) q = s

  on_interface-Sound :
      (idx : ℕ) (o : Option OspfInterface) (p : OspfPacket)
      → get_elem? inst.interfaces idx ≡ o
      → Ensures SoundAfter (on_interface inst idx o src p now)
  on_interface-Sound idx none p e = tt
  on_interface-Sound idx (some i) p e = elim (Bool-cases ((header_of p).area_id == i.area_id)) [
    | inr other ↦ rw other s
    | inl same ↦ rw same (
        handle_packet-Sound idx i p
          (get_elem-All HasQuietNeighbors inst.interfaces idx i s.neighbors e))
  ]

  on_index-Sound : (o : Option ℕ) (p : OspfPacket) → Ensures SoundAfter (on_index inst o src p now)
  on_index-Sound none p = s
  on_index-Sound (some idx) p = on_interface-Sound idx (get_elem? inst.interfaces idx) p refl

-- If below ExStart no neighbor holds requests, retransmissions or summaries, and each database has
-- its LSAs under their keys, once and with their origin noted, then the same holds behind any packet
-- that is processed: whatever its type, its sender and its contents, the elections, answers and
-- originations that it causes included.
pub process_packet-IsSound :
    (inst : OspfInstance) (sw_if_index : ℕ) (src : Ipv4Addr) (p : OspfPacket) (now : ℕ)
    → IsSound inst
    → Ensures SoundAfter (process_packet inst sw_if_index src p now)
unfolding process_packet
process_packet-IsSound inst sw_if_index src p now s =
    on_index-Sound inst src now s (find_interface inst sw_if_index) p

-- A packet that may originate LSAs of ours.
abbrev pub is_update : OspfPacket → Bool
is_update (OspfPacket.link_state_update h p) = true
is_update _ = false

position_lem :
    {A : Type 0} (p : A → Bool) (xs : List A) (n k : ℕ)
    → position_from n p xs ≡ some k
    → (j : ℕ) × (x : A) × (k ≡ n + j) × (get_elem? xs j ≡ some x)
position_lem p [] n k h = cc
position_lem p (x ∷ xs) n k h = elim (Bool-cases (p x)) [
  | inl here ↦ (zero, x, ground arith, refl)
  | inr later ↦
      let rest : position_from (suc n) p xs ≡ some k = rw later at h in
      let (j, y, e, f) = position_lem p xs (suc n) k rest in (suc j, y, omega arith, f)
]

handle_packet-Returns :
    (inst : OspfInstance) (idx : ℕ) (i : OspfInterface) (src : Ipv4Addr) (p : OspfPacket) (now : ℕ)
    → is_update p ≡ false
    → Returns (handle_packet inst idx i src p now)
unfolding handle_packet
handle_packet-Returns inst idx i src (OspfPacket.hello h p) now e =
    rw (process_hello-noticed inst.router_id i h.router_id src p now) tt
handle_packet-Returns inst idx i src (OspfPacket.database_description h p) now e = tt
handle_packet-Returns inst idx i src (OspfPacket.link_state_request h p) now e = tt
handle_packet-Returns inst idx i src (OspfPacket.link_state_update h p) now e = cc
handle_packet-Returns inst idx i src (OspfPacket.link_state_ack h p) now e = tt

-- A packet that is no Link State Update is processed without a panic: the index of the interface
-- that it came in on is in bounds, and the neighbor that sent a Hello is in the interface's map
-- whenever it is read, before it is changed and afterwards.
pub process_packet-Returns :
    (inst : OspfInstance) (sw_if_index : ℕ) (src : Ipv4Addr) (p : OspfPacket) (now : ℕ)
    → is_update p ≡ false
    → Returns (process_packet inst sw_if_index src p now)
unfolding process_packet find_interface
process_packet-Returns inst sw_if_index src p now e =
    by_index (find_interface inst sw_if_index) refl
  where
    on_found : (idx : ℕ) (i : OspfInterface) → Returns (on_interface inst idx (some i) src p now)
    on_found idx i = elim (Bool-cases ((header_of p).area_id == i.area_id)) [
      | inr other ↦ rw other (tt)
      | inl same ↦ rw same (handle_packet-Returns inst idx i src p now e)
    ]

    by_index :
        (o : Option ℕ) → find_interface inst sw_if_index ≡ o → Returns (on_index inst o src p now)
    by_index none h = tt
    by_index (some idx) h =
        let (j, i, same, there) =
          position_lem (λ (i : OspfInterface). i.sw_if_index == sw_if_index) inst.interfaces 0 idx
            h in
        let at : get_elem? inst.interfaces idx ≡ some i =
          subst (λ n. get_elem? inst.interfaces n ≡ some i) (omega arith) there in
        rw at (on_found idx i)
