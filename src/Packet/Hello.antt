-- ===== src/Packet/Hello.antt =====
-- The Hello packet body and the options byte (src/packet/hello.rs).
pub mod RoundTrip
use Prim.Native.Nat.{bit_and}
use ospfd.Common.{
  ℕ, Bool, not, List, ◌∷◌, ◌++◌, length, drop, ltb, ◌==◌, if◌then◌else◌, Ipv4Addr, be16, be32,
  u8_at, u16_at, u32_at, Outcome, ok, err, too_short, ◌>>=◌,
}
use ospfd.Packet.Addresses.{addresses, encode_addresses}

-- `OspfOptions` is its byte; E_BIT is 0x02.
abbrev pub OspfOptions : Type 0
OspfOptions = ℕ

abbrev pub e_bit : ℕ
e_bit = 0x02

abbrev pub standard : OspfOptions
standard = e_bit

unfoldable pub has_e_bit : OspfOptions → Bool
has_e_bit o = not (bit_and o e_bit == 0)

abbrev pub hello_min_len : ℕ
hello_min_len = 20

pub record HelloPacket : Type 0 where
  pub network_mask : Ipv4Addr
  pub hello_interval : ℕ
  pub options : OspfOptions
  pub router_priority : ℕ
  pub router_dead_interval : ℕ
  pub designated_router : Ipv4Addr
  pub backup_designated_router : Ipv4Addr
  pub neighbors : List Ipv4Addr

unfoldable pub parse_hello : List ℕ → Outcome HelloPacket
parse_hello data_ =
    if ltb (length data_) hello_min_len then err (too_short hello_min_len (length data_)) else do
      mask ← u32_at data_ 0
      interval ← u16_at data_ 4
      opts ← u8_at data_ 6
      pri ← u8_at data_ 7
      dead ← u32_at data_ 8
      dr ← u32_at data_ 12
      bdr ← u32_at data_ 16
      ok (record {
        network_mask = mask;
        hello_interval = interval;
        options = opts;
        router_priority = pri;
        router_dead_interval = dead;
        designated_router = dr;
        backup_designated_router = bdr;
        neighbors = addresses (drop hello_min_len data_);
      })

unfoldable pub encode_hello : HelloPacket → List ℕ
encode_hello h =
    be32 h.network_mask
    ++ (be16 h.hello_interval
        ++ (h.options
            ∷ h.router_priority
            ∷ (be32 h.router_dead_interval
                ++ (be32 h.designated_router
                    ++ (be32 h.backup_designated_router ++ encode_addresses h.neighbors)))))
