-- ===== src/Act.antt =====
-- civsim_harness/capability/registry.py, parity/filter.py and civsim_harness/act: what may be
-- observed, what may be attempted, and what an attempt did.
pub mod Registry
pub mod Dispatch
pub mod Prompts
pub mod Camera
pub mod Verify
pub mod Verification
pub mod Attribution
pub mod Authorization
mod Tests
