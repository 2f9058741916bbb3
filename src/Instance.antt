-- ===== src/Instance.antt =====
-- The OSPFv2 protocol instance (src/instance.rs).
pub mod State
pub mod Hello
pub mod Examples
pub mod Tick
pub mod Flood
pub mod Request
pub mod Maintenance
pub mod Dispatch
pub mod Sound
pub mod Update
pub mod Originate
pub mod Stored
pub mod Describe
pub mod Timers
