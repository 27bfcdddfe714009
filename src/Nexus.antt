-- ===== src/Nexus.antt =====
-- civsim_harness/nexus: the connection to the game client.
pub mod Codec
