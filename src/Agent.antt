-- ===== src/Agent.antt =====
-- civsim_harness/agent: the context that a model is shown, and the decision that it answers.
pub mod Decisions
pub mod Context
mod Tests
