-- ===== src/Turn.antt =====
-- run/turn_cycle.py and run/detection.py: one turn of a run.
pub mod State
pub mod Detection
pub mod Quicksave
pub mod Attempts
pub mod Backstop
pub mod Cycle
pub mod Protocol
pub mod Tests
