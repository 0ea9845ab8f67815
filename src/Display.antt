-- ===== src/Display.antt =====
-- Displays: lib/Display.
pub mod Position
pub mod Reader
pub mod Reads
pub mod Import
