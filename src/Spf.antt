-- ===== src/Spf.antt =====
-- The shortest-path calculation (src/proto/spf.rs).
pub mod Table
pub mod Tree
mod Examples
pub mod Routes
