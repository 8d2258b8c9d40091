-- ===== src/Memory/Frames.antt =====
-- src/memory/frame_allocator/mod.rs: the bitmap allocator. A frame of the bitmap is an index; a
-- `PhysFrame` is its start address. A slice index out of bounds panics.
pub mod Bitmap
pub mod Marks
pub mod Search
pub mod Allocate
pub mod RegionOf
pub mod History
