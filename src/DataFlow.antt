-- ===== src/DataFlow.antt =====
-- The data flow of a query: lib/DataFlow.
pub mod Differential
pub mod Stratify
pub mod EquivalenceSet
mod Tests
