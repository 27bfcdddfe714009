-- ===== src/Runner.antt =====
-- run/runner.py: a run from turn to turn, the commands of the operator, and how a failed turn is
-- recorded.
pub mod State
pub mod Failures
pub mod Play
pub mod Commands
pub mod Rewind
mod Tests
