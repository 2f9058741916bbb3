-- ===== src/Instance/Update/Loading.antt =====
-- When the updates of a neighbor complete its loading.
use ospfd.Common.{
  ◌||◌, ℕ, zero, suc, ◌≡◌, refl, sym, ap, ◌∙◌, arith, Bool, true, false, ◌&&◌, Option, none, some,
  List, [], ◌∷◌, ◌++◌, set, Ipv4Addr, Bool-cases, inl, inr, if◌then◌else◌,
}
use ospfd.Packet.Lsa.Header.{LsaKey, LsaHeader}
use ospfd.Packet.Lsa.Header as Header
use ospfd.Packet.Lsa.Codec.{Lsa, key}
use ospfd.Neighbor.Machine as Peer
use ospfd.Neighbor.Machine.{Neighbor, NeighborState, loading, full}
use ospfd.Interface.Machine.{OspfInterface}
use ospfd.Area.{Area}
use ospfd.Lsdb.Store.{InstallResult, new, updated, duplicate, older}
use ospfd.Lsdb.Entries.{key_eq}
use ospfd.Spf.Table.{get, put, get-put}
use ospfd.Instance.State.{OspfInstance, get_elem?}
use ospfd.Instance.Describe.{is_empty}
use ospfd.Instance.Stored.{is_as_external}
use ospfd.Instance.Update.{
  LsuState, install_lsa, install_in_area, retain_other, answered, answered_at, remove_request,
  by_result, process_lsa, process_lsas, start,
}

-- One of the headers is that of the LSA with this key.
unfoldable pub answers : List LsaHeader → LsaKey → Bool
answers [] k = false
answers (h ∷ hs) k = key_eq k (Header.key h) || answers hs k

-- The requests that no header of the acknowledgements answers, in their order.
unfoldable pub outstanding : List LsaHeader → List LsaKey → List LsaKey
outstanding hs [] = []
outstanding hs (k ∷ ks) = let rest = outstanding hs ks in if answers hs k then rest else k ∷ rest

answers-append :
    (hs : List LsaHeader) (h : LsaHeader) (k : LsaKey)
    → answers (hs ++ (h ∷ [])) k ≡ (key_eq k (Header.key h) || answers hs k)
unfolding answers
answers-append [] h k = refl
answers-append (g ∷ hs) h k = ground (arith, answers-append hs h k)

outstanding_none : (ks : List LsaKey) → outstanding [] ks ≡ ks
unfolding outstanding answers
outstanding_none [] = refl
outstanding_none (k ∷ ks) = ap (λ js. k ∷ js) (outstanding_none ks)

outstanding-append :
    (hs : List LsaHeader) (h : LsaHeader) (ks : List LsaKey)
    → outstanding (hs ++ (h ∷ [])) ks ≡ retain_other (Header.key h) (outstanding hs ks)
unfolding outstanding retain_other
outstanding-append hs h [] = refl
outstanding-append hs h (k ∷ ks) =
    let here = answers-append hs h k in
    let rest = outstanding-append hs h ks in
    elim (Bool-cases (answers hs k)) [
      | inl answered ↦ ground (arith, here, rest)
      | inr waits ↦ ground (arith, here, rest)
    ]

-- The neighbor with the id on the interface with the index.
abbrev peer_on : Ipv4Addr → Option OspfInterface → Option Neighbor
peer_on id none = none
peer_on id (some i) = get id i.neighbors

unfoldable pub peer_of : List OspfInterface → ℕ → Ipv4Addr → Option Neighbor
peer_of is idx id = peer_on id (get_elem? is idx)

-- A neighbor that had these requests outstanding when it was Loading.
pub record Loads (ks : List LsaKey) (acks : List LsaHeader) (n : Neighbor) : Type 0 where
  pub requests : n.ls_request_list ≡ outstanding acks ks
  pub stage : n.state ≡ (if is_empty n.ls_request_list then full else loading)

retain_nil : (k : LsaKey) → retain_other k [] ≡ []
unfolding retain_other
retain_nil k = refl

empty_lem : (k : LsaKey) (ks : List LsaKey) → is_empty ks ≡ true → retain_other k ks ≡ []
empty_lem k [] h = retain_nil k
empty_lem k (j ∷ js) h = cc

answered-state :
    (k : LsaKey) (n : Neighbor) (now : ℕ)
    → n.state ≡ (if is_empty n.ls_request_list then full else loading)
    → (answered k n now).0.state
      ≡ (if is_empty (retain_other k n.ls_request_list) then full else loading)
unfolding answered Peer.handle_event
answered-state k n now h = ground (arith, empty_lem k n.ls_request_list)

answered-requests :
    (k : LsaKey) (n : Neighbor) (now : ℕ)
    → (answered k n now).0.ls_request_list ≡ retain_other k n.ls_request_list
unfolding answered Peer.handle_event
answered-requests k n now = ground arith

answered-Loads :
    (ks : List LsaKey) (acks : List LsaHeader) (l : Lsa) (n : Neighbor) (now : ℕ)
    → Loads ks acks n
    → Loads ks (acks ++ (l.header ∷ [])) (answered (key l) n now).0
answered-Loads ks acks l n now s =
    let list = answered-requests (key l) n now in
    record {
      requests =
          list ∙ ap (retain_other (key l)) s.requests ∙ sym (outstanding-append acks l.header ks);
      stage = rw list (answered-state (key l) n now s.stage);
    }

pub get_elem-set :
    (is : List OspfInterface) (idx : ℕ) (i j : OspfInterface)
    → get_elem? is idx ≡ some i
    → get_elem? (set is idx j) idx ≡ some j
get_elem-set [] idx i j h = cc
get_elem-set (x ∷ xs) zero i j h = refl
get_elem-set (x ∷ xs) (suc idx) i j h = get_elem-set xs idx i j h

module _ (is : List OspfInterface) (idx : ℕ) (id : Ipv4Addr) (k : LsaKey) (now : ℕ) (n : Neighbor)
    (found : peer_of is idx id ≡ some n) where
  peer-answered :
      (o : Option OspfInterface)
      → get_elem? is idx ≡ o
      → peer_of (answered_at is idx id k now o).0 idx id ≡ some (answered k n now).0
  unfolding peer_of
  peer-answered none e = ground (arith, found)
  peer-answered (some i) e =
      let there : get id i.neighbors ≡ some n = ground (arith, found) in
      let a = (answered k n now).0 in
      let j = record i { neighbors = put id a i.neighbors } in
      rw there (rw (get_elem-set is idx i j e) (ground (arith, get-put id id a i.neighbors)))

  peer-remove_request :
      peer_of (remove_request is idx id k now).0 idx id ≡ some (answered k n now).0
  unfolding remove_request
  peer-remove_request = peer-answered (get_elem? is idx) refl

install_lsa-interfaces :
    (inst : OspfInstance) (area_id : Ipv4Addr) (l : Lsa) (now : ℕ)
    → (install_lsa inst area_id l now).0.interfaces ≡ inst.interfaces
unfolding install_lsa
install_lsa-interfaces inst area_id l now = elim (Bool-cases (is_as_external l.header.ls_type)) [
  | inl ext ↦ rw ext refl
  | inr int ↦ rw int (by_area (get area_id inst.areas))
]
  where
    by_area :
        (o : Option Area) → (install_in_area inst area_id l now o).0.interfaces ≡ inst.interfaces
    by_area none = refl
    by_area (some a) = refl

module _ (idx : ℕ) (i : OspfInterface) (src id : Ipv4Addr) (stub : Bool) (now : ℕ)
    (ks : List LsaKey) where
  -- The neighbor is there, and has the requests outstanding that were not acknowledged.
  abbrev pub IsLoading : LsuState → Type 0
  IsLoading s =
      (n : Neighbor) × (peer_of s.inst.interfaces idx id ≡ some n) × Loads ks s.ack_headers n

  acknowledged-IsLoading :
      (s : LsuState) (l : Lsa)
      → IsLoading s
      → (n : Neighbor) × (peer_of (remove_request s.inst.interfaces idx id (key l) now).0 idx id
          ≡ some n)
        × Loads ks (s.ack_headers ++ (l.header ∷ [])) n
  acknowledged-IsLoading s l (n, found, loads) = (
    (answered (key l) n now).0,
    peer-remove_request s.inst.interfaces idx id (key l) now n found,
    answered-Loads ks s.ack_headers l n now loads,
  )

  by_result-IsLoading :
      (l : Lsa) (s : LsuState) (o : Option InstallResult)
      → IsLoading s
      → IsLoading (by_result idx i src id l now s o)
  by_result-IsLoading l s none h = h
  by_result-IsLoading l s (some new) h = acknowledged-IsLoading s l h
  by_result-IsLoading l s (some updated) h = acknowledged-IsLoading s l h
  by_result-IsLoading l s (some duplicate) h = acknowledged-IsLoading s l h
  by_result-IsLoading l s (some older) h = h

  process_lsa-IsLoading :
      (s : LsuState) (l : Lsa) → IsLoading s → IsLoading (process_lsa idx i src id stub now s l)
  unfolding process_lsa
  process_lsa-IsLoading s l (n, found, loads) =
      elim (Bool-cases (is_as_external l.header.ls_type && stub)) [
        | inl dropped ↦ rw dropped (n, found, loads)
        | inr taken ↦
            let r = install_lsa s.inst i.area_id l now in
            let same = install_lsa-interfaces s.inst i.area_id l now in
            rw taken (
              by_result-IsLoading l (record s { inst = r.0 }) r.1
                (n, ap (λ is. peer_of is idx id) same ∙ found, loads))
      ]

  process_lsas-IsLoading :
      (s : LsuState) (ls : List Lsa)
      → IsLoading s
      → IsLoading (process_lsas idx i src id stub now s ls)
  unfolding process_lsas
  process_lsas-IsLoading s [] h = h
  process_lsas-IsLoading s (l ∷ ls) h =
      process_lsas-IsLoading (process_lsa idx i src id stub now s l) ls
        (process_lsa-IsLoading s l h)

-- A neighbor that is Loading with requests outstanding has, behind an update of its own, exactly
-- those outstanding whose key is that of no LSA that the update's acknowledgements have the header
-- of, in the same order; and it is Full if there are none, and Loading if there are some.
pub process_lsas_lem :
    (inst : OspfInstance) (idx : ℕ) (i : OspfInterface) (src id : Ipv4Addr) (stub : Bool) (now : ℕ)
    (ls : List Lsa) (n : Neighbor)
    → peer_of inst.interfaces idx id ≡ some n
    → n.state ≡ loading
    → is_empty n.ls_request_list ≡ false
    → (m : Neighbor) × (peer_of
          (process_lsas idx i src id stub now (start inst) ls).inst.interfaces
          idx
          id
        ≡ some m)
      × (m.ls_request_list
          ≡ outstanding
              (process_lsas idx i src id stub now (start inst) ls).ack_headers
              n.ls_request_list)
      × (m.state ≡ (if is_empty m.ls_request_list then full else loading))
process_lsas_lem inst idx i src id stub now ls n found h waits =
    let first : Loads n.ls_request_list [] n = record {
      requests = sym (outstanding_none n.ls_request_list);
      stage = rw waits h;
    } in
    let (m, there, loads) =
      process_lsas-IsLoading idx i src id stub now n.ls_request_list (start inst) ls
        (n, found, first) in
    (m, there, loads.requests, loads.stage)
