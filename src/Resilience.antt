-- ===== src/Resilience.antt =====
-- civsim_harness/resilience: the detection of a client that crashed, hangs or does not answer, and
-- the recovery of a run from the save of its turn.
pub mod Detector
pub mod Recovery
