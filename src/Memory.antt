-- ===== src/Memory.antt =====
-- src/memory/: physical frames and the memory map.
pub mod External
pub mod Region
pub mod Frames
pub mod Bootstrap
pub mod Init
pub mod Paging
pub mod Heap
pub mod Context
pub mod Example
mod Tests
