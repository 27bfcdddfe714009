-- ===== src/Parity.antt =====
-- civsim_harness/parity: the boundary of what the agent may be told. The filter of observation
-- entries is in Act/Registry.
pub mod Forbidden
mod Tests
