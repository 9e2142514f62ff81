-- ===== src/Swamp.antt =====
-- The swap server, swamp/src.
pub mod SwapFile
pub mod Swap
