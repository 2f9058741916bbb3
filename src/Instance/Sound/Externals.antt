-- ===== src/Instance/Sound/Externals.antt =====
-- Originating and withdrawing AS-external-LSAs keeps the instance sound.
use Prim.Native.String.{String}
use ospfd.Common.{
  ℕ, ◌≡◌, refl, Bool, Option, none, some, List, [], ◌∷◌, Ipv4Addr, Ensures, Ensures->>=,
  Ensures->>=_any,
}
use ospfd.Packet.Lsa.Header.{LsaKey, LsaType}
use ospfd.Packet.Lsa.Body.{LsaBody}
use ospfd.Packet.Lsa.Codec.{Lsa}
use ospfd.Interface.Election.{filter}
use ospfd.Lsdb.Store as Store
use ospfd.Lsdb.Store.{Lsdb, LsdbEntry, install, all_headers}
use ospfd.Lsdb.Store.Install.{IsValid, install-IsValid}
use ospfd.Instance.State.{OspfInstance, RedistributeConfig}
use ospfd.Instance.Originate.{install_own, install_some, with_cksum}
use ospfd.Instance.Originate.External.{
  ParsedSummaryAddress, external_body, originate_external, withdrawn, flush_found, flush_keys,
  to_flush, flush_self_externals_outside, originate_externals, with_map, withdraw_all, named,
  configured, is_kept, keep_keys, find_connected, originate_external_lsas,
}
use ospfd.Instance.Sound.{IsSound}
use ospfd.Instance.Sound.Databases.{put_external-IsSound}
use ospfd.Instance.Sound.Origination.{Valid, install_own-IsValid}

abbrev pub SoundExternals : OspfInstance × List Lsa → Type 0
SoundExternals p = IsSound p.0

originate_external-Sound :
    (inst : OspfInstance) (prefix : Ipv4Addr) (body : LsaBody) (now : ℕ)
    → IsSound inst
    → Ensures SoundExternals (originate_external inst prefix body now)
unfolding originate_external
originate_external-Sound inst prefix body now s =
    Ensures->>= Valid SoundExternals
      (install_own inst.as_external_lsdb inst.router_id LsaType.as_external prefix body now) _
      (install_own-IsValid inst.as_external_lsdb inst.router_id LsaType.as_external prefix body now
        s.external)
      (λ p v. put_external-IsSound inst p.0 v s)

flush_found-IsValid :
    (db : Lsdb) (now : ℕ) (o : Option LsdbEntry)
    → IsValid db
    → Ensures IsValid (flush_found db now o)
flush_found-IsValid db now none v = v
flush_found-IsValid db now (some e) v =
    Ensures->>=_any IsValid (with_cksum (withdrawn e)) _ installed
  where
    installed : (c : Option Lsa) → IsValid (install_some db c now)
    installed none = v
    installed (some l) = install-IsValid db l now v

flush_keys-IsValid :
    (db : Lsdb) (ks : List LsaKey) (now : ℕ) → IsValid db → Ensures IsValid (flush_keys db ks now)
unfolding flush_keys
flush_keys-IsValid db [] now v = v
flush_keys-IsValid db (k ∷ ks) now v =
    Ensures->>= IsValid IsValid (flush_found db now (Store.get db k)) _
      (flush_found-IsValid db now (Store.get db k) v) (λ d w. flush_keys-IsValid d ks now w)

flush-IsSound :
    (inst : OspfInstance) (keep : List Ipv4Addr) (now : ℕ)
    → IsSound inst
    → Ensures IsSound (flush_self_externals_outside inst keep now)
unfolding flush_self_externals_outside
flush-IsSound inst keep now s =
    let ks = to_flush inst.router_id keep (all_headers inst.as_external_lsdb now) in
    Ensures->>= IsValid IsSound (flush_keys inst.as_external_lsdb ks now) _
      (flush_keys-IsValid inst.as_external_lsdb ks now s.external)
      (λ d v. put_external-IsSound inst d v s)

originate_externals-Sound :
    (inst : OspfInstance) (cfg : RedistributeConfig) (es : List (Ipv4Addr × Ipv4Addr)) (now : ℕ)
    → IsSound inst
    → Ensures SoundExternals (originate_externals inst cfg es now)
unfolding originate_externals
originate_externals-Sound inst cfg [] now s = s
originate_externals-Sound inst cfg ((prefix, mask) ∷ es) now s =
    Ensures->>= SoundExternals SoundExternals
      (originate_external inst prefix (external_body mask cfg.metric_type cfg.metric 0) now) _
      (originate_external-Sound inst prefix (external_body mask cfg.metric_type cfg.metric 0) now s)
      (λ p t.
        Ensures->>= SoundExternals SoundExternals (originate_externals p.0 cfg es now) _
          (originate_externals-Sound p.0 cfg es now t) (λ q u. u))

module _ {Statement : Type 0} (matches : Statement → Ipv4Addr → ℕ → Bool)
    (permits : Statement → Bool) (inst : OspfInstance) (now : ℕ) (s : IsSound inst) where
  withdraw_all-Sound : Ensures SoundExternals (withdraw_all matches permits inst now)
  withdraw_all-Sound =
      Ensures->>= IsSound SoundExternals (flush_self_externals_outside inst [] now) _
        (flush-IsSound inst [] now s) (λ i t. t)

  module _ (externals : List (Ipv4Addr × Ipv4Addr)) (summaries : List ParsedSummaryAddress) where
    with_map-Sound :
        (cfg : RedistributeConfig) (m : Option (List Statement))
        → Ensures SoundExternals (with_map matches permits inst cfg externals summaries now m)
    with_map-Sound cfg m =
        let kept = filter (is_kept matches permits summaries m) externals in
        Ensures->>= IsSound SoundExternals
          (flush_self_externals_outside inst (keep_keys kept summaries) now) _
          (flush-IsSound inst (keep_keys kept summaries) now s)
          (λ i t. originate_externals-Sound i cfg kept now t)

    module _ (route_maps : String → Option (List Statement)) where
      named-Sound :
          (cfg : RedistributeConfig) (o : Option (List Statement))
          → Ensures SoundExternals
              (named matches permits route_maps inst cfg externals summaries now o)
      named-Sound cfg none = withdraw_all-Sound
      named-Sound cfg (some m) = with_map-Sound cfg (some m)

      configured-Sound :
          (o : Option RedistributeConfig)
          → Ensures SoundExternals
              (configured matches permits route_maps inst externals summaries now o)
      configured-Sound none = withdraw_all-Sound
      configured-Sound (some cfg) = by_name cfg.route_map refl
        where
          by_name :
              (n : Option String)
              → cfg.route_map ≡ n
              → Ensures SoundExternals
                  (configured matches permits route_maps inst externals summaries now (some cfg))
          by_name none e = rw e (with_map-Sound cfg none)
          by_name (some name) e = rw e (named-Sound cfg (route_maps name))

      pub originate_external_lsas-Sound :
          (redistribute : List RedistributeConfig)
          → Ensures SoundExternals (
              originate_external_lsas matches permits route_maps inst redistribute externals
                summaries now)
      unfolding originate_external_lsas
      originate_external_lsas-Sound redistribute = configured-Sound (find_connected redistribute)
