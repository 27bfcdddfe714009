-- ===== src/Store.antt =====
-- civsim_harness/store: the guard that persists a turn before the game may advance, what the store
-- accepts as the record of a turn, and whether the record of a run is complete.
pub mod Guard
pub mod Record
pub mod Completeness
