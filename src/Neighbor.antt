-- ===== src/Neighbor.antt =====
-- The neighbor state machine (src/proto/neighbor.rs): `NeighborState`, `NeighborEvent`,
-- `Neighbor` and `Neighbor::handle_event`. Logging is left out.
pub mod Machine
mod Examples
