-- ===== src/Lsdb/Store.antt =====
-- The database and its operations (src/lsdb.rs). An Instant is a number of nanoseconds, and
-- `Instant::now()` the argument `now`. Logging is left out.
pub mod Install
pub mod Age
pub mod Newest
pub mod Live
pub mod Bump
pub mod Originate
use Prim.Native.Nat.{Ordering}
use ospfd.Common.{
  ℕ, ◌+◌, ◌-◌, ◌*◌, ◌/◌, ◌%◌, ◌^◌, min, Bool, true, false, not, ◌&&◌, Option, none, some, List, [],
  ◌∷◌, map, length, ltb, leb, ◌==◌, if◌then◌else◌, Ipv4Addr, Outcome, ok, err, fault, panic, ◌>>=◌,
}
use ospfd.Packet.Lsa.Header.{LsaKey, LsaHeader, router, max_age, lsa_header_len}
use ospfd.Packet.Lsa.Header.Recency.{is_more_recent_than, signed_rank}
use ospfd.Packet.Lsa.Body.{RouterLink, LsaBody, encode_router}
use ospfd.Packet.Lsa.Codec
use ospfd.Packet.Lsa.Codec.{Lsa, key}
use ospfd.Lsdb.Entries.{lookup, insert, remove, keys_where, remove_all}

pub record LsdbEntry : Type 0 where
  pub lsa : Lsa
  pub installed_at : ℕ
  pub self_originated : Bool

abbrev pub ls_refresh_time : ℕ
ls_refresh_time = 1800

-- `elapsed().as_secs() as u16`: whole seconds, wrapped to 16 bits; then `saturating_add`.
unfoldable pub current_age : LsdbEntry → ℕ → ℕ
current_age e now =
    let elapsed = (now - e.installed_at) / 1000000000 % 65536 in
    min (min (e.lsa.header.ls_age + elapsed) 65535) max_age

unfoldable pub is_max_age : ℕ → LsdbEntry → Bool
is_max_age now e = leb max_age (current_age e now)

unfoldable pub needs_refresh : ℕ → LsdbEntry → Bool
needs_refresh now e = e.self_originated && leb ls_refresh_time (current_age e now)

pub record Lsdb : Type 0 where
  pub entries : List (LsaKey × LsdbEntry)
  pub router_id : Ipv4Addr

unfoldable pub new_lsdb : Ipv4Addr → Lsdb
new_lsdb rid = record { entries = []; router_id = rid }

unfoldable pub get : Lsdb → LsaKey → Option LsdbEntry
get db k = lookup k db.entries

-- `len` and `entries_count`
unfoldable pub len : Lsdb → ℕ
len db = length db.entries

pub data InstallResult : Type 0 where
  new updated duplicate older : InstallResult

abbrev pub changed : InstallResult → Bool
changed new = true
changed updated = true
changed _ = false

abbrev pub fresh_entry : Lsdb → Lsa → ℕ → LsdbEntry
fresh_entry db l now = record {
  lsa = l;
  installed_at = now;
  self_originated = l.header.advertising_router == db.router_id;
}

abbrev store : Lsdb → Lsa → ℕ → Lsdb
store db l now = record db { entries = insert (key l) (fresh_entry db l now) db.entries }

-- The arms of `install` for a key that is there, by the comparison, and for one that is not.
abbrev install_over : Lsdb → Lsa → ℕ → Ordering → Lsdb × InstallResult
install_over db l now Ordering.gt = (store db l now, updated)
install_over db l now Ordering.eq = (db, duplicate)
install_over db l now Ordering.lt = (db, older)

abbrev install_at : Lsdb → Lsa → ℕ → Option LsdbEntry → Lsdb × InstallResult
install_at db l now none = (store db l now, new)
install_at db l now (some e) = install_over db l now (is_more_recent_than l.header e.lsa.header)

unfoldable pub install : Lsdb → Lsa → ℕ → Lsdb × InstallResult
install db l now = install_at db l now (lookup (key l) db.entries)

abbrev pub with_seq : LsdbEntry → ℕ → LsdbEntry
with_seq e seq = record e {
  lsa = record (e.lsa) { header = record (e.lsa.header) { ls_sequence_number = seq } };
}

abbrev pub bump_at : Lsdb → LsaKey → ℕ → Option LsdbEntry → Lsdb × Bool
bump_at db k seq none = (db, false)
bump_at db k seq (some e) =
    if ltb (signed_rank e.lsa.header.ls_sequence_number) (signed_rank seq)
    then (record db { entries = insert k (with_seq e seq) db.entries }, true)
    else (db, false)

unfoldable pub bump_seq : Lsdb → LsaKey → ℕ → Lsdb × Bool
bump_seq db k seq = bump_at db k seq (lookup k db.entries)

unfoldable pub remove_lsa : Lsdb → LsaKey → Lsdb × Option LsdbEntry
remove_lsa db k = (record db { entries = remove k db.entries }, lookup k db.entries)

unfoldable pub flush_max_age : Lsdb → ℕ → Lsdb × List LsaKey
flush_max_age db now =
    let keys = keys_where (is_max_age now) db.entries in
    (record db { entries = remove_all keys db.entries }, keys)

unfoldable pub self_originated_due_for_refresh : Lsdb → ℕ → List LsaKey
self_originated_due_for_refresh db now = keys_where (needs_refresh now) db.entries

abbrev pub aged : LsdbEntry → ℕ → Lsa
aged e now = record (e.lsa) { header = record (e.lsa.header) { ls_age = current_age e now } }

-- The entries that have not reached MaxAge, with their current age.
unfoldable pub live_lsas : ℕ → List (LsaKey × LsdbEntry) → List (LsaKey × Lsa)
live_lsas now [] = []
live_lsas now ((k, e) ∷ m) =
    let rest = live_lsas now m in if is_max_age now e then rest else (k, aged e now) ∷ rest

unfoldable pub as_lsa_map : Lsdb → ℕ → List (LsaKey × Lsa)
as_lsa_map db now = live_lsas now db.entries

abbrev header_of : LsaKey × Lsa → LsaHeader
header_of (k, l) = l.header

unfoldable pub all_headers : Lsdb → ℕ → List LsaHeader
all_headers db now = map header_of (live_lsas now db.entries)

-- 0x8000_0001 is -0x7FFF_FFFF.
abbrev pub initial_sequence_number : ℕ
initial_sequence_number = 0x80000001

-- `wrapping_add(1)` on an i32.
abbrev pub next_seq : Option LsdbEntry → ℕ
next_seq none = initial_sequence_number
next_seq (some e) = (e.lsa.header.ls_sequence_number + 1) % 2 ^ 32

abbrev pub router_key : Ipv4Addr → LsaKey
router_key rid = record { ls_type = router; link_state_id = rid; advertising_router = rid }

-- The Router-LSA before its checksum; `length` is `(LSA_HEADER_LEN + body_buf.len()) as u16`.
unfoldable pub router_lsa : Ipv4Addr → ℕ → List RouterLink → ℕ → ℕ → Lsa
router_lsa rid flags links options seq = record {
  header = record {
    ls_age = 0;
    options = options;
    ls_type = router;
    link_state_id = rid;
    advertising_router = rid;
    ls_sequence_number = seq;
    ls_checksum = 0;
    length =
        (lsa_header_len + length (encode_router (record { flags = flags; links = links })))
        % 2 ^ 16;
  };
  body = LsaBody.router (record { flags = flags; links = links });
}

-- `expect` turns an error of parsing our own LSA into a panic.
abbrev pub expect : Outcome Lsa → Outcome Lsa
expect (ok l) = ok l
expect (err e) = fault panic
expect (fault w) = fault w

unfoldable pub originate_router_lsa :
    Lsdb → Ipv4Addr → ℕ → List RouterLink → ℕ → ℕ → Outcome (Lsdb × Lsa)
originate_router_lsa db rid flags links options now = do
  let seq = next_seq (lookup (router_key rid) db.entries)
  encoded ← Codec.encode (router_lsa rid flags links options seq)
  l ← expect (Codec.parse encoded)
  ok ((install db l now).0, l)
