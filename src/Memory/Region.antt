-- ===== src/Memory/Region.antt =====
-- The memory map of the boot information, and the usable frames in it: `usable_frames` of
-- src/memory/frame_allocator/mod.rs and of src/memory/frame_allocator/bootstrap.rs.
pub mod Laws
use capucho_os.Base.{
  ℕ, ◌-◌, ◌^◌, ◌≤◌, Bool, true, false, List, [], ◌∷◌, ◌++◌, Option, none, some, if◌then◌else◌,
}
use capucho_os.Memory.External.{FrameRange, steps}

-- `bootloader::bootinfo::MemoryRegionType`; the types that the source does not name are `other`.
pub data MemoryRegionType : Type 0 where
  usable reserved acpi_reclaimable frame_zero kernel_stack : MemoryRegionType
  other : ℕ → MemoryRegionType

pub record MemoryRegion : Type 0 where
  pub range : FrameRange
  pub region_type : MemoryRegionType

abbrev pub is_usable : MemoryRegionType → Bool
is_usable usable = true
is_usable _ = false

-- The frame numbers `start..end` of a region.
abbrev pub frame_numbers : MemoryRegion → List ℕ
frame_numbers r =
    steps 1 (r.range.end_frame_number - r.range.start_frame_number) r.range.start_frame_number

-- `usable_frames` of the global allocator.
unfoldable pub usable_frames : List MemoryRegion → List ℕ
usable_frames [] = []
usable_frames (r ∷ rs) =
    if is_usable r.region_type then frame_numbers r ++ usable_frames rs else usable_frames rs

-- The bootloader's map lists its regions in order and without overlap, below 2 ^ 52 bytes.
abbrev pub IsSorted : ℕ → List MemoryRegion → Type 0
IsSorted low [] = Unit
IsSorted low (r ∷ rs) =
    (low ≤ r.range.start_frame_number)
    × (r.range.start_frame_number ≤ r.range.end_frame_number)
    × (r.range.end_frame_number ≤ 2 ^ 40)
    × IsSorted r.range.end_frame_number rs

-- `memory_map.last()`.
abbrev pub last_end : List MemoryRegion → Option ℕ
last_end [] = none
last_end (r ∷ []) = some r.range.end_frame_number
last_end (r ∷ s ∷ rs) = last_end (s ∷ rs)
