-- ===== src/Saves.antt =====
-- civsim_harness/saves: the disk space that a run needs, and the save point of a turn.
pub mod Headroom
pub mod Addressing
