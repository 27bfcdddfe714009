-- ===== src/Run.antt =====
-- civsim_harness/run: the decision-step loop of one turn attempt, over the other components.
pub mod Actions
pub mod LoopState
pub mod FreshRead
pub mod Requests
pub mod Step
pub mod Attempt
pub mod DecisionLoop
pub mod Tests
