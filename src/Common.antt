-- ===== src/Common.antt =====
-- The names that every module of the library shares: the libraries' own, passed on, tests on
-- numbers, lists measured by native numbers, the outcome of a fallible operation, and the
-- big-endian bytes of a word (core::net::Ipv4Addr and to_be_bytes of the source).
mod Tests
mod Lists
mod Results
mod Bytes
pub mod Int
pub use Tests.*
pub use Lists.*
pub use Results.*
pub use Bytes.*
pub use Prim.Native.Nat.{ℕ, zero, suc, ◌+◌, ◌-◌, ◌*◌, ◌/◌, ◌%◌, ◌^◌, ◌≤◌, ◌<◌, min}
pub use mathlib.Core.Path.{◌≡◌, refl, sym, ap, ◌∙◌}
pub use mathlib.Core.Logic.{◌≢◌, ◌⊎◌, inl, inr}
pub use mathlib.Core.Bool.{Bool, true, false, not, ◌&&◌, ◌||◌}
pub use mathlib.Core.Option.{Option, none, some}
pub use mathlib.Core.List.{List, [], ◌∷◌, ◌++◌, map}
pub use native.Mathlib.Omega.{arith}
