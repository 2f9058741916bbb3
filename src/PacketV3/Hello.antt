-- ===== src/PacketV3/Hello.antt =====
-- The Hello packet body (src/packet_v3/hello.rs). `Options` is its number.
use ospfd.Common.{
  ℕ, ◌≡◌, arith, List, ◌∷◌, ◌++◌, All, length, drop, ltb, if◌then◌else◌, Ipv4Addr, IsU16, IsU32,
  be16, be32, from_be16-be16, from_be32-be32, u8_at, u16_at, u32_at, Outcome, ok, err, too_short,
  ◌>>=◌,
}
use ospfd.Packet.Addresses.{addresses, encode_addresses, addresses-encode_addresses}
use ospfd.PacketV3.Bits24.{IsU24, u24_at, be24, from_be24-be24}

-- V6, E and R.
abbrev pub standard_v3 : ℕ
standard_v3 = 0x13

abbrev pub hello_v3_min_len : ℕ
hello_v3_min_len = 20

pub record HelloV3Packet : Type 0 where
  pub interface_id : ℕ
  pub router_priority : ℕ
  pub options : ℕ
  pub hello_interval : ℕ
  pub router_dead_interval : ℕ
  pub designated_router_id : Ipv4Addr
  pub backup_designated_router_id : Ipv4Addr
  pub neighbors : List Ipv4Addr

unfoldable pub parse_hello_v3 : List ℕ → Outcome HelloV3Packet
parse_hello_v3 data_ =
    if ltb (length data_) hello_v3_min_len
    then err (too_short hello_v3_min_len (length data_))
    else do
      id ← u32_at data_ 0
      pri ← u8_at data_ 4
      opts ← u24_at data_ 5
      interval ← u16_at data_ 8
      dead ← u16_at data_ 10
      dr ← u32_at data_ 12
      bdr ← u32_at data_ 16
      ok (record {
        interface_id = id;
        router_priority = pri;
        options = opts;
        hello_interval = interval;
        router_dead_interval = dead;
        designated_router_id = dr;
        backup_designated_router_id = bdr;
        neighbors = addresses (drop hello_v3_min_len data_);
      })

unfoldable pub encode_hello_v3 : HelloV3Packet → List ℕ
encode_hello_v3 h =
    be32 h.interface_id
    ++ (h.router_priority
        ∷ (be24 h.options
            ++ (be16 h.hello_interval
                ++ (be16 h.router_dead_interval
                    ++ (be32 h.designated_router_id
                        ++ (be32 h.backup_designated_router_id ++ encode_addresses h.neighbors))))))

pub record IsHelloV3 (h : HelloV3Packet) : Type 0 where
  pub interface_id : IsU32 h.interface_id
  pub options : IsU24 h.options
  pub hello_interval : IsU16 h.hello_interval
  pub router_dead_interval : IsU16 h.router_dead_interval
  pub designated_router_id : IsU32 h.designated_router_id
  pub backup_designated_router_id : IsU32 h.backup_designated_router_id
  pub neighbors : All IsU32 h.neighbors

-- A version 3 Hello body with options of 24 bits, its neighbor list included, is read back from the
-- bytes that it is written as.
pub parse_hello_v3-encode_hello_v3 :
    (h : HelloV3Packet) → IsHelloV3 h → parse_hello_v3 (encode_hello_v3 h) ≡ ok h
unfolding parse_hello_v3 encode_hello_v3
parse_hello_v3-encode_hello_v3 h v = ground (
  arith,
  from_be32-be32 h.interface_id v.interface_id,
  from_be24-be24 h.options v.options,
  from_be16-be16 h.hello_interval v.hello_interval,
  from_be16-be16 h.router_dead_interval v.router_dead_interval,
  from_be32-be32 h.designated_router_id v.designated_router_id,
  from_be32-be32 h.backup_designated_router_id v.backup_designated_router_id,
  addresses-encode_addresses h.neighbors v.neighbors,
)
