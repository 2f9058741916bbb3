-- ===== src/Lsdb.antt =====
-- The link state database of an area (src/lsdb.rs).
pub mod Entries
pub mod Store
mod Examples
