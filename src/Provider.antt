-- ===== src/Provider.antt =====
-- civsim_harness/provider: the port of the model providers, and the chain of models behind one
-- decision step.
pub mod Port
pub mod Accounting
pub mod Chain
