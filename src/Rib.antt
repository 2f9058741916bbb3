-- ===== src/Rib.antt =====
-- The route caches (src/rib.rs, src/rib_v3.rs).
mod Examples
pub mod Cache
pub mod V2
pub mod V3
