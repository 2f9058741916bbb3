-- ===== src/Interface.antt =====
-- The interface state machine and the election of the Designated Router
-- (src/proto/interface.rs).
pub mod Election
pub mod Machine
mod Examples
