-- ===== src/Observe.antt =====
-- civsim_harness/observe: what a step reads of the game.
pub mod Schema
pub mod Assemble
pub mod Screen
pub mod Capture
pub mod HostGate
mod Tests
