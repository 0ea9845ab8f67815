-- ===== src/Runtime.antt =====
-- The runtime that generated databases stand on, include/drlojekyll/Runtime.
pub mod Hashed
pub mod Run
pub mod Probe
pub mod IdSlots
pub mod RowStore
pub mod Counters
pub mod Flags
pub mod DiffTable
pub mod NetBatch
pub mod Members
pub mod MonotoneTable
pub mod StateCell
pub mod Index
mod Tests
