-- ===== src/Instance/Examples.antt =====
-- The instance at concrete inputs.
mod Data
use ospfd.Common.{
  ◌<◌, ℕ, ◌+◌, ◌*◌, ◌≤◌, ◌≡◌, ◌⊎◌, refl, arith, inl, inr, Bool, true, false, ◌&&◌, ◌||◌, ◌==◌,
  if◌then◌else◌, none, some, List, [], ◌∷◌, ◌++◌, In, Ipv4Addr, unspecified, Returns, ok,
}
use ospfd.Packet.Header.{OspfHeader, OspfPacketType, new_header}
use ospfd.Packet.Hello.{HelloPacket}
use ospfd.Packet.Lsa.Header.{LsaKey, router}
use ospfd.Packet.Lsa.Body.{LsaBody}
use ospfd.Packet.Lsa.Codec.{Lsa}
use ospfd.Packet.Exchange.{DbDescPacket, has_more}
use ospfd.Packet.Codec.{OspfPacket, header_of}
use ospfd.Neighbor.Machine.{Neighbor, exchange, loading, full}
use ospfd.Interface.Machine.{OspfInterface, InterfaceState, NetworkType}
use ospfd.Interface.Machine.Kept.{holds_in}
use ospfd.Area.{AreaType}
use ospfd.Lsdb.Store.{Lsdb, get}
use ospfd.Lsdb.Store.Install.{IsValid}
use ospfd.Lsdb.Entries.{lookup}
use ospfd.Spf.Table as Table
use ospfd.Spf.Table.{contains}
use ospfd.Instance.State.{OspfInstance, get_elem?, find_interface}
use ospfd.Instance.Hello.{process_hello}
use ospfd.Instance.Hello.Known.{intervals_match, noticed, process_hello-noticed}
use ospfd.Instance.Hello.TwoWay.{in_two_way, process_hello_lem}
use ospfd.Instance.Timers.{
  millisecond, schedule_spf, spf_due, is_expired, check_interface, check_neighbor_timers,
}
use ospfd.Instance.Timers.Throttle.{backoff, NotBehind, schedule_spf-bound, schedule_spf-hold}
use ospfd.Instance.Timers.Silence.{is_down, check_interface_lem}
use ospfd.Instance.Describe.{is_empty}
use ospfd.Instance.Describe.Complete.{IsOver}
use ospfd.Instance.Describe.Feed.{feed, headers_in}
use ospfd.Instance.Describe.Ended.{feed-IsOver, headers_in-feed}
use ospfd.Instance.Update.{process_lsas, start}
use ospfd.Instance.Update.Loading.{outstanding, peer_of, process_lsas_lem}
use ospfd.Instance.Flood.{
  flood_lsas_to_others, lsu_response, flood_from, flood_on, any_eligible, area_accepts_ext,
  may_flood,
}
use ospfd.Instance.Flood.Reach.{
  MayReceive, Carries, IsFlooded, flood_lsas_to_others-IsFlooded, Carries-flood_lsas_to_others,
}
use ospfd.Instance.Dispatch.{process_packet, handle_packet}
use ospfd.Instance.Dispatch.Invariant.{process_packet-Returns}
use ospfd.Instance.Maintenance.Steps.{
  Reaches, here, onward, packet, timers, waits, hellos, reaches-IsSound,
}
use ospfd.Instance.Maintenance.Loop.{expire_waits, send_hellos}
use ospfd.Instance.Sound.{IsSound}
use ospfd.Instance.Examples.Data.{lsa, requested, peer, eth0, empty, inst, hello}

process_hello_lem_example :
    (after : OspfInterface) × (process_hello 0x01010101 eth0 0x02020202 0x0A000002 hello 9
      ≡ ok after)
    × (holds_in in_two_way after.neighbors 0x02020202 ≡ (
        if intervals_match eth0 hello && 0x02020202 == 0x02020202
        then contains 0x01010101 (0x01010101 ∷ [])
        else holds_in in_two_way eth0.neighbors 0x02020202))
    × ((if intervals_match eth0 hello then eth0 else after) ≡ eth0)
process_hello_lem_example =
    process_hello_lem 0x01010101 eth0 0x02020202 0x0A000002 hello 9 0x02020202

schedule_spf-bound_example :
    (t : ℕ) × (spf_due (schedule_spf inst 9) ≡ some t)
    × ((t ≤ 9 + 200 * millisecond) ⊎ (t ≤ 9 + 10000 * millisecond))
    × NotBehind (spf_due inst) t
schedule_spf-bound_example = schedule_spf-bound inst 9

nothing_due : spf_due inst ≡ none
unfolding spf_due
nothing_due = refl

schedule_spf-hold_example :
    (t : ℕ) × (spf_due (schedule_spf inst 9) ≡ some t)
    × (7 + backoff inst * millisecond ≤ t)
    × (((9 < 7 + backoff inst * millisecond) × ((schedule_spf inst 9).spf_hold_multiplier ≡ 2))
        ⊎ ((7 + backoff inst * millisecond ≤ 9)
            × (t ≡ 9 + 200 * millisecond)
            × ((schedule_spf inst 9).spf_hold_multiplier ≡ 0)))
schedule_spf-hold_example = schedule_spf-hold inst 9 7 nothing_due refl (omega arith) (omega arith)

one-Distinct : Table.Distinct eth0.neighbors
unfolding Table.get
one-Distinct = Table.cons refl Table.nil

check_interface_lem_example :
    (holds_in (is_expired 40 50000000000) (check_interface eth0 50000000000).neighbors 0x02020202
      ≡ false)
    × (holds_in is_down (check_interface eth0 50000000000).neighbors 0x02020202 ≡ (
        holds_in is_down eth0.neighbors 0x02020202
        || holds_in (is_expired 40 50000000000) eth0.neighbors 0x02020202))
check_interface_lem_example = check_interface_lem eth0 50000000000 0x02020202 one-Distinct

abbrev exchanging : Neighbor
exchanging = record peer { state = exchange }

abbrev exchanging_inst : OspfInstance
exchanging_inst = record inst {
  interfaces = record eth0 { neighbors = (0x02020202, exchanging) ∷ [] } ∷ [];
}

abbrev dd_header : OspfHeader
dd_header = new_header OspfPacketType.database_description 0x02020202 unspecified

abbrev last_dd : DbDescPacket
last_dd = record {
  interface_mtu = 1500;
  options = 2;
  flags = 0;
  dd_sequence_number = 5;
  lsa_headers = [];
}

last_dd-has_more : has_more last_dd ≡ false
unfolding has_more
last_dd-has_more = refl

exchanging-found : peer_of exchanging_inst.interfaces 0 dd_header.router_id ≡ some exchanging
unfolding peer_of Table.get new_header
exchanging-found = refl

abbrev both : List (DbDescPacket × ℕ)
both = ((last_dd, 3) ∷ []) ++ ((last_dd, 4) ∷ [])

feed-IsOver_example :
    (m : Neighbor) × (peer_of
        (feed 0 0x0A000002 dd_header exchanging_inst both).0.interfaces
        0
        dd_header.router_id
      ≡ some m)
    × IsOver m
feed-IsOver_example =
    feed-IsOver 0 0x0A000002 dd_header exchanging_inst exchanging ((last_dd, 3) ∷ []) last_dd 4
      exchanging-found refl (omega arith) (omega arith) last_dd-has_more

ended :
    (m : Neighbor) × (peer_of
        (feed 0 0x0A000002 dd_header exchanging_inst both).0.interfaces
        0
        dd_header.router_id
      ≡ some m)
    × IsOver m
ended =
    feed-IsOver 0 0x0A000002 dd_header exchanging_inst exchanging ((last_dd, 3) ∷ []) last_dd 4
      exchanging-found refl (omega arith) (omega arith) last_dd-has_more

headers_in-feed_example :
    headers_in (feed 0 0x0A000002 dd_header exchanging_inst both).1 ≡ lsa.header ∷ []
headers_in-feed_example =
    headers_in-feed 0 0x0A000002 dd_header exchanging_inst exchanging ended.0 both exchanging-found
      refl refl ended.1 ended.2

peer-found : peer_of (eth0 ∷ []) 0 0x02020202 ≡ some peer
unfolding peer_of Table.get
peer-found = refl

process_lsas_lem_example :
    (m : Neighbor) × (peer_of
        (process_lsas 0 eth0 0x0A000002 0x02020202 false 9 (start inst) (lsa ∷ [])).inst.interfaces
        0
        0x02020202
      ≡ some m)
    × (m.ls_request_list
        ≡ outstanding
            (process_lsas 0 eth0 0x0A000002 0x02020202 false 9 (start inst) (lsa ∷ [])).ack_headers
            (requested ∷ []))
    × (m.state ≡ (if is_empty m.ls_request_list then full else loading))
process_lsas_lem_example =
    process_lsas_lem inst 0 eth0 0x0A000002 0x02020202 false 9 (lsa ∷ []) peer peer-found refl refl

eth0-MayReceive : MayReceive none 0x01010101 0 eth0
eth0-MayReceive = record {
  elsewhere = refl;
  up = refl;
  neighbor = (0x02020202, peer);
  member = inl refl;
  eligible = (omega arith, λ e. omega arith);
}

lsa-Carries : Carries inst eth0 (lsa ∷ []) lsa
lsa-Carries = (inl refl, inr refl)

Carries-flood_example :
    (carried : List Lsa) × In
      (lsu_response inst eth0 carried)
      (flood_lsas_to_others inst none 0x01010101 (lsa ∷ []))
    × In lsa carried
Carries-flood_example =
    Carries-flood_lsas_to_others inst none 0x01010101 (lsa ∷ []) 0 eth0 lsa refl eth0-MayReceive
      lsa-Carries

one_response :
    In (lsu_response inst eth0 (lsa ∷ [])) (flood_lsas_to_others inst none 0x01010101 (lsa ∷ []))
unfolding flood_lsas_to_others flood_from flood_on any_eligible area_accepts_ext may_flood Table.get
one_response = inl refl

flood_lsas_to_others-IsFlooded_example :
    (k : ℕ) × (i : OspfInterface) × (get_elem? (eth0 ∷ []) k ≡ some i)
    × IsFlooded inst none 0x01010101 (lsa ∷ []) (lsu_response inst eth0 (lsa ∷ [])) k i
flood_lsas_to_others-IsFlooded_example =
    flood_lsas_to_others-IsFlooded inst none 0x01010101 (lsa ∷ [])
      (lsu_response inst eth0 (lsa ∷ [])) one_response

abbrev hello_packet : OspfPacket
hello_packet = OspfPacket.hello (new_header OspfPacketType.hello 0x02020202 unspecified) hello

process_packet-Returns_example : Returns (process_packet inst 1 0x0A000002 hello_packet 9)
process_packet-Returns_example = process_packet-Returns inst 1 0x0A000002 hello_packet 9 refl

empty-IsValid : IsValid empty
unfolding get lookup
empty-IsValid = record {
  distinct = ospfd.Lsdb.Entries.Laws.nil;
  keyed = λ k e h. cc;
  origin = λ k e h. cc;
}

inst-IsSound : IsSound inst
inst-IsSound = record {
  neighbors = ((λ h. absurd (omega arith), tt), tt);
  areas = (empty-IsValid, tt);
  external = empty-IsValid;
}

abbrev after_hello : OspfInstance
after_hello = record inst {
  interfaces = noticed 0x01010101 eth0 0x02020202 0x0A000002 hello 9 ∷ [];
}

hello_step : process_packet inst 1 0x0A000002 hello_packet 9 ≡ ok (after_hello, [])
unfolding process_packet find_interface handle_packet new_header header_of intervals_match
hello_step = rw (process_hello-noticed 0x01010101 eth0 0x02020202 0x0A000002 hello 9) refl

abbrev never : Bool → Ipv4Addr → ℕ → Bool
never s prefix len = false

abbrev after_waits : OspfInstance
after_waits = expire_waits (check_neighbor_timers after_hello 50000000000).0 60000000000

abbrev some_run : Reaches never (λ s. s) (λ n. none) inst (send_hellos after_waits 70000000000)
some_run = onward (packet 1 0x0A000002 hello_packet 9 hello_step) (
    onward (timers 50000000000 refl)
      (onward (waits 60000000000 refl) (onward (hellos 70000000000 refl) here)))

reaches-IsSound_example : IsSound (send_hellos after_waits 70000000000)
reaches-IsSound_example = reaches-IsSound never (λ s. s) (λ n. none) some_run inst-IsSound
