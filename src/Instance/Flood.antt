-- ===== src/Instance/Flood.antt =====
-- Flooding: `flood_lsas_to_others` (src/instance.rs). Logging is left out.
pub mod Reach
use ospfd.Common.{
  ℕ, zero, suc, Bool, true, false, not, ◌&&◌, ◌||◌, Option, none, some, List, [], ◌∷◌, ◌++◌, set,
  ◌==◌, if◌then◌else◌, Ipv4Addr, Outcome, ok, ◌>>=◌,
}
use ospfd.Packet.Header.{OspfHeader, OspfPacketType, new_header}
use ospfd.Packet.Lsa.Header.{
  LsaKey, LsaType, LsaHeader, router, network, summary_network, summary_asbr, as_external,
}
use ospfd.Packet.Lsa.Codec.{Lsa, key}
use ospfd.Packet.Exchange.{LsRequest, LsRequestPacket, LsUpdatePacket}
use ospfd.Packet.Codec.{OspfPacket}
use ospfd.Neighbor.Machine as Peer
use ospfd.Neighbor.Machine.{
  Neighbor, NeighborState, exchange, loading, full, loading_done, bad_ls_req, state_ge, state_eq,
}
use ospfd.Interface.Election.{filter}
use ospfd.Interface.Machine.{OspfInterface}
use ospfd.Area.{Area, accepts_as_external}
use ospfd.Lsdb.Entries.{key_eq}
use ospfd.Lsdb.Store as Store
use ospfd.Lsdb.Store.{LsdbEntry, InstallResult, new, updated, duplicate, older, install}
use ospfd.Spf.Table.{get, put}
use ospfd.Instance.State.{OspfInstance, Response, get_elem?, is_abr}
use ospfd.Instance.Timers.{schedule_spf}
use ospfd.Instance.Describe.{is_empty}
use ospfd.Instance.Stored.{is_as_external, find_entry}
use ospfd.Instance.Originate.{originate_router_lsas, originate_network_lsas, is_down}

-- 224.0.0.5
abbrev pub all_spf_routers : Ipv4Addr
all_spf_routers = 0xE0000005

-- `n.state >= NeighborState::Exchange && n.router_id != from_router`
unfoldable pub any_eligible : Ipv4Addr → List (Ipv4Addr × Neighbor) → Bool
any_eligible from_router [] = false
any_eligible from_router ((id, n) ∷ ns) =
    (state_ge n.state exchange && not (n.router_id == from_router)) || any_eligible from_router ns

abbrev accepts : Option Area → Bool
accepts none = true
accepts (some a) = accepts_as_external a

unfoldable pub area_accepts_ext : OspfInstance → Ipv4Addr → Bool
area_accepts_ext inst area_id = accepts (get area_id inst.areas)

unfoldable pub may_flood : Bool → Lsa → Bool
may_flood area_accepts l = area_accepts || not (is_as_external l.header.ls_type)

-- An Option index: none is `usize::MAX`, for LSAs of our own.
abbrev pub is_input : Option ℕ → ℕ → Bool
is_input none idx = false
is_input (some j) idx = idx == j

abbrev pub lsu_response : OspfInstance → OspfInterface → List Lsa → Response
lsu_response inst i lsas = (
  i.sw_if_index,
  all_spf_routers,
  OspfPacket.link_state_update
      (new_header OspfPacketType.link_state_update inst.router_id i.area_id)
      (record { lsas = lsas }),
)

-- What is flooded on one interface, which has the index `idx`.
unfoldable pub flood_on :
    OspfInstance → Option ℕ → Ipv4Addr → List Lsa → ℕ → OspfInterface → List Response
flood_on inst input from_router lsas idx i =
    let filtered = filter (may_flood (area_accepts_ext inst i.area_id)) lsas in
    if is_down i || (is_input input idx || not (any_eligible from_router i.neighbors))
    then []
    else if is_empty filtered
    then []
    else lsu_response inst i filtered ∷ []

unfoldable pub flood_from :
    OspfInstance → Option ℕ → Ipv4Addr → List Lsa → ℕ → List OspfInterface → List Response
flood_from inst input from_router lsas idx [] = []
flood_from inst input from_router lsas idx (i ∷ is) =
    flood_on inst input from_router lsas idx i
    ++ flood_from inst input from_router lsas (suc idx) is

-- The responses that are added.
unfoldable pub flood_lsas_to_others : OspfInstance → Option ℕ → Ipv4Addr → List Lsa → List Response
flood_lsas_to_others inst input from_router lsas =
    flood_from inst input from_router lsas 0 inst.interfaces

-- `for (_area_id, lsa) in …` with LSAs of our own.
unfoldable pub flood_own : OspfInstance → List (Ipv4Addr × Lsa) → List Response
flood_own inst [] = []
flood_own inst ((a, l) ∷ ls) =
    flood_lsas_to_others inst none inst.router_id (l ∷ []) ++ flood_own inst ls
