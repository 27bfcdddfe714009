-- ===== src/Models.antt =====
-- The record types of civsim_harness/models that the components share.
pub mod Run
pub mod Event
pub mod Turn
pub mod Value
