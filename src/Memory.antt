-- ===== src/Memory.antt =====
-- The memory server, memory/src.
pub mod Tlb
pub mod Frames
pub mod Clock
pub mod Paging
pub mod Access
pub mod SwapInterface
pub mod Heap
pub mod Petitions
pub mod Serving
