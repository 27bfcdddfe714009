-- ===== src/Predicate.antt =====
-- civsim_harness/act/predicates.py and capability/predicates.py: the restricted predicate language
-- of the catalog.
pub mod Symbols
pub mod Values
pub mod Syntax
pub mod Eval
pub mod Bindings
pub mod Monotone
mod Tests
