-- ===== src/Instance/Originate/External.antt =====
-- Type 5 LSAs: `originate_external_lsas`, `flush_self_externals_outside`,
-- `originate_summary_address_lsas`, `originate_default_route_lsa` and `evaluate_route_map`
-- (src/instance.rs). What a statement of a route map matches is the crate ribd_routemap's, and a
-- parameter. Logging is left out.
use Prim.Native.String.{String}
use ospfd.Common.{
  ℕ, ◌+◌, ◌%◌, ◌^◌, Bool, true, false, not, ◌&&◌, ◌||◌, Option, none, some, List, [], ◌∷◌, ◌++◌,
  map, ◌==◌, if◌then◌else◌, Ipv4Addr, unspecified, Outcome, ok, ◌>>=◌,
}
use ospfd.Packet.Lsa.Header.{LsaKey, LsaHeader, LsaType, max_age}
use ospfd.Packet.Lsa.Header as Header
use ospfd.Packet.Lsa.Body.{LsaBody}
use ospfd.Packet.Lsa.Codec.{Lsa}
use ospfd.Interface.Election.{filter}
use ospfd.Lsdb.Store as Store
use ospfd.Lsdb.Store.{Lsdb, LsdbEntry, all_headers}
use ospfd.Spf.Table.{contains}
use ospfd.Instance.State.{OspfInstance, RedistributeConfig, connected}
use ospfd.Instance.Originate.{install_own, with_cksum, install_some}
use ospfd.Instance.Originate.Masks.{prefix_len_to_mask, mask_to_prefix_len_v4, prefix_covered_by}

pub record ParsedSummaryAddress : Type 0 where
  pub prefix : Ipv4Addr
  pub prefix_len : ℕ
  pub no_advertise : Bool
  pub tag : ℕ
  pub metric : ℕ
  pub metric_type : ℕ

-- `find` of a summary that covers the prefix.
unfoldable pub is_covered : List ParsedSummaryAddress → Ipv4Addr → Bool
is_covered [] prefix = false
is_covered (s ∷ ss) prefix = prefix_covered_by prefix s.prefix s.prefix_len || is_covered ss prefix

unfoldable pub external_body : Ipv4Addr → ℕ → ℕ → ℕ → LsaBody
external_body mask metric_type metric tag = LsaBody.as_external (record {
  network_mask = mask;
  metric_type_2 = metric_type == 2;
  metric = metric;
  forwarding_address = unspecified;
  external_route_tag = tag;
})

abbrev one : Option Lsa → List Lsa
one none = []
one (some l) = l ∷ []

-- A Type 5 LSA of ours, into the database of the AS.
unfoldable pub originate_external :
    OspfInstance → Ipv4Addr → LsaBody → ℕ → Outcome (OspfInstance × List Lsa)
originate_external inst prefix body now = do
  p ← install_own inst.as_external_lsdb inst.router_id LsaType.as_external prefix body now
  ok (record inst { as_external_lsdb = p.0 }, one p.1)

-- `to_flush`
unfoldable pub to_flush : Ipv4Addr → List Ipv4Addr → List LsaHeader → List LsaKey
to_flush rid keep [] = []
to_flush rid keep (h ∷ hs) =
    let rest = to_flush rid keep hs in
    if h.advertising_router == rid && not (contains h.link_state_id keep)
    then Header.key h ∷ rest
    else rest

-- MaxAge and the next sequence number.
abbrev pub withdrawn : LsdbEntry → Lsa
withdrawn e = record (e.lsa) {
  header = record (e.lsa.header) {
    ls_age = max_age;
    ls_sequence_number = (e.lsa.header.ls_sequence_number + 1) % 2 ^ 32;
  };
}

abbrev pub flush_found : Lsdb → ℕ → Option LsdbEntry → Outcome Lsdb
flush_found db now none = ok db
flush_found db now (some e) = do c ← with_cksum (withdrawn e); ok (install_some db c now)

unfoldable pub flush_keys : Lsdb → List LsaKey → ℕ → Outcome Lsdb
flush_keys db [] now = ok db
flush_keys db (k ∷ ks) now = do d ← flush_found db now (Store.get db k); flush_keys d ks now

unfoldable pub flush_self_externals_outside :
    OspfInstance → List Ipv4Addr → ℕ → Outcome OspfInstance
flush_self_externals_outside inst keep now = do
  d ←
      flush_keys inst.as_external_lsdb
        (to_flush inst.router_id keep (all_headers inst.as_external_lsdb now)) now
  ok (record inst { as_external_lsdb = d })

unfoldable pub originate_summary_address_lsas :
    OspfInstance → List ParsedSummaryAddress → ℕ → Outcome (OspfInstance × List Lsa)
originate_summary_address_lsas inst [] now = ok (inst, [])
originate_summary_address_lsas inst (e ∷ es) now = do
  p ←
      (if e.no_advertise
        then ok (inst, [])
        else originate_external inst e.prefix
            (external_body (prefix_len_to_mask e.prefix_len) e.metric_type e.metric e.tag) now)
  q ← originate_summary_address_lsas p.0 es now
  ok (q.0, p.1 ++ q.1)

unfoldable pub originate_default_route_lsa :
    OspfInstance → ℕ → ℕ → ℕ → Outcome (OspfInstance × List Lsa)
originate_default_route_lsa inst metric metric_type now =
    originate_external inst unspecified (external_body unspecified metric_type metric 0) now

unfoldable pub find_connected : List RedistributeConfig → Option RedistributeConfig
find_connected [] = none
find_connected (r ∷ rs) =
    let rest = find_connected rs in elim (r.source) [ connected ↦ some r | _ ↦ rest ]

-- The loop over what is kept.
unfoldable pub originate_externals :
    OspfInstance
    → RedistributeConfig
    → List (Ipv4Addr × Ipv4Addr)
    → ℕ
    → Outcome (OspfInstance × List Lsa)
originate_externals inst cfg [] now = ok (inst, [])
originate_externals inst cfg ((prefix, mask) ∷ es) now = do
  p ← originate_external inst prefix (external_body mask cfg.metric_type cfg.metric 0) now
  q ← originate_externals p.0 cfg es now
  ok (q.0, p.1 ++ q.1)

abbrev prefix_of : ParsedSummaryAddress → Ipv4Addr
prefix_of s = s.prefix

unfoldable pub keep_keys : List (Ipv4Addr × Ipv4Addr) → List ParsedSummaryAddress → List Ipv4Addr
keep_keys kept summaries =
    map (λ (e : Ipv4Addr × Ipv4Addr). e.0) kept ++ (map prefix_of summaries ++ (unspecified ∷ []))

-- A route map is the list of its statements; `matches` is `evaluate_universal` of a statement for a
-- connected prefix of a length, and `permits` whether its action is `Permit`.
module _ {Statement : Type 0} (matches : Statement → Ipv4Addr → ℕ → Bool)
    (permits : Statement → Bool) where
  unfoldable pub evaluate_route_map : List Statement → Ipv4Addr → ℕ → Bool
  evaluate_route_map [] prefix len = false
  evaluate_route_map (s ∷ ss) prefix len =
      let rest = evaluate_route_map ss prefix len in
      if matches s prefix len then permits s else rest

  abbrev pub permitted : Option (List Statement) → Ipv4Addr → Ipv4Addr → Bool
  permitted none prefix mask = true
  permitted (some m) prefix mask = evaluate_route_map m prefix (mask_to_prefix_len_v4 mask)

  -- `kept`
  unfoldable pub is_kept :
      List ParsedSummaryAddress → Option (List Statement) → Ipv4Addr × Ipv4Addr → Bool
  is_kept summaries route_map (prefix, mask) =
      not (is_covered summaries prefix) && permitted route_map prefix mask

  abbrev pub with_map :
      OspfInstance
      → RedistributeConfig
      → List (Ipv4Addr × Ipv4Addr)
      → List ParsedSummaryAddress
      → ℕ
      → Option (List Statement)
      → Outcome (OspfInstance × List Lsa)
  with_map inst cfg externals summaries now route_map = do
    let kept = filter (is_kept summaries route_map) externals
    flushed ← flush_self_externals_outside inst (keep_keys kept summaries) now
    originate_externals flushed cfg kept now

  abbrev pub withdraw_all : OspfInstance → ℕ → Outcome (OspfInstance × List Lsa)
  withdraw_all inst now = do flushed ← flush_self_externals_outside inst [] now; ok (flushed, [])

  -- `self.route_maps.get(name)`, for the name that the configuration gives.
  abbrev pub named :
      (String → Option (List Statement))
      → OspfInstance
      → RedistributeConfig
      → List (Ipv4Addr × Ipv4Addr)
      → List ParsedSummaryAddress
      → ℕ
      → Option (List Statement)
      → Outcome (OspfInstance × List Lsa)
  named route_maps inst cfg externals summaries now none = withdraw_all inst now
  named route_maps inst cfg externals summaries now (some m) =
      with_map inst cfg externals summaries now (some m)

  abbrev pub configured :
      (String → Option (List Statement))
      → OspfInstance
      → List (Ipv4Addr × Ipv4Addr)
      → List ParsedSummaryAddress
      → ℕ
      → Option RedistributeConfig
      → Outcome (OspfInstance × List Lsa)
  configured route_maps inst externals summaries now none = withdraw_all inst now
  configured route_maps inst externals summaries now (some cfg) = elim (cfg.route_map) [
    | none ↦ with_map inst cfg externals summaries now none
    | some name ↦ named route_maps inst cfg externals summaries now (route_maps name)
  ]

  unfoldable pub originate_external_lsas :
      (String → Option (List Statement))
      → OspfInstance
      → List RedistributeConfig
      → List (Ipv4Addr × Ipv4Addr)
      → List ParsedSummaryAddress
      → ℕ
      → Outcome (OspfInstance × List Lsa)
  originate_external_lsas route_maps inst redistribute externals summaries now =
      configured route_maps inst externals summaries now (find_connected redistribute)
