-- ===== src/Util.antt =====
-- Helpers of the compiler: lib/Util.
pub mod EqualitySet
pub mod DisjointSet
mod Tests
