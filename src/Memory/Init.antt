-- ===== src/Memory/Init.antt =====
-- `GlobalFrameAllocator::init` of src/memory/frame_allocator/mod.rs. `raw` is what the memory holds
-- that is mapped for the bitmap: the code does not clear it.

pub mod Marking
pub mod Laws
pub mod Bitmaps
pub mod Outcome
use Prim.Native.Nat.{min}
use capucho_os.Base.{
  ℕ, zero, suc, ◌+◌, ◌-◌, ◌*◌, ◌/◌, ◌≡◌, refl, Bool, true, false, not, List, [], ◌∷◌, map, Option,
  none, some, Run, ret, unwrap_none, index_out_of_bounds, or_panic, ◌>>=◌, ◌>>◌, get_elem?,
  replicate, ◌==◌, if◌then◌else◌,
}
use capucho_os.Memory.External.{Crates, Mapper, steps}
use capucho_os.Memory.Region.{
  MemoryRegion, MemoryRegionType, usable, reserved, acpi_reclaimable, frame_zero, kernel_stack,
  other, frame_numbers, last_end,
}
use capucho_os.Memory.Bootstrap.{BootStrapAllocator, allocate_bitmap_frame}
use capucho_os.Memory.Frames.Bitmap.{GlobalFrameAllocator, mark_used}

abbrev pub bitmap_start : ℕ
bitmap_start = 0x6666_6666_0000

abbrev pub bits_per_frame : ℕ
bits_per_frame = 0x1000 * 8

-- A loop that marks frames.
unfoldable pub mark_each : GlobalFrameAllocator → List ℕ → Run GlobalFrameAllocator
mark_each this [] = ret this
mark_each this (i ∷ is) = mark_used this i >>= λ t. mark_each t is

-- The body of the loop over `bootstrap.used`, with the filter for the sizes that are not 0.
unfoldable pub mark_size :
    List MemoryRegion → GlobalFrameAllocator → ℕ → ℕ → Run GlobalFrameAllocator
mark_size regions this block size =
    if size == 0
    then ret this
    else (or_panic index_out_of_bounds (get_elem? regions block) >>= λ r.
        mark_each this (steps 1 size r.range.start_frame_number))

-- The loop over `bootstrap.used`, from region number `block` on.
unfoldable pub mark_bootstrap :
    List MemoryRegion → GlobalFrameAllocator → ℕ → List ℕ → Run GlobalFrameAllocator
mark_bootstrap regions this block [] = ret this
mark_bootstrap regions this block (size ∷ sizes) =
    mark_size regions this block size >>= λ t. mark_bootstrap regions t (suc block) sizes

-- The regions that the loop over the memory map skips.
abbrev pub is_skipped : MemoryRegionType → Bool
is_skipped usable = true
is_skipped reserved = true
is_skipped acpi_reclaimable = true
is_skipped frame_zero = true
is_skipped kernel_stack = false
is_skipped (other n) = false

unfoldable pub mark_regions : GlobalFrameAllocator → List MemoryRegion → Run GlobalFrameAllocator
mark_regions this [] = ret this
mark_regions this (r ∷ rs) =
    (if is_skipped r.region_type then ret this else mark_each this (frame_numbers r)) >>= λ t.
    mark_regions t rs

-- The words of memory from index `i` on, as a slice of `n` words.
abbrev pub slice : (ℕ → ℕ) → ℕ → ℕ → List ℕ
slice raw zero i = []
slice raw (suc n) i = raw i ∷ slice raw n (suc i)

unfoldable pub bitmap_frames : ℕ → ℕ
bitmap_frames end_frame = (end_frame + bits_per_frame - 1) / bits_per_frame

-- The slice of `end_frame + 1` words, as far as its pages are mapped. A use of a word of the slice past
-- these pages is a page fault, whose handler does not return; here it ends the run like an index past
-- the slice.
unfoldable pub mapped_words : ℕ → ℕ
mapped_words end_frame = min (end_frame + 1) (bitmap_frames end_frame * 1024)

unfoldable pub raw_allocator : (ℕ → ℕ) → List MemoryRegion → ℕ → GlobalFrameAllocator
raw_allocator raw regions end_frame = record {
  memory_map = regions;
  next_usable = 0;
  bitmap = slice raw (mapped_words end_frame) 0;
}

unfoldable pub new_bootstrap : List MemoryRegion → BootStrapAllocator
new_bootstrap regions = record { memory_map = regions; next = 0; used = replicate 64 0 }

module _ (crates : Crates) (mapper : Mapper) where
  -- The loop over the frames of the bitmap, from number `i` on with `n` rounds left.
  unfoldable pub allocate_bitmaps :
      ℕ → ℕ → BootStrapAllocator → mapper.Table → Run (BootStrapAllocator × mapper.Table)
  allocate_bitmaps zero i boot table = ret (boot, table)
  allocate_bitmaps (suc n) i boot table =
      allocate_bitmap_frame crates mapper boot table (bitmap_start + i * 0x1000) >>= λ r.
      allocate_bitmaps n (suc i) r.0 r.1

  unfoldable pub init :
      (ℕ → ℕ) → List MemoryRegion → mapper.Table → Run (GlobalFrameAllocator × mapper.Table)
  init raw memory_map table = do
    end_frame ← or_panic unwrap_none (last_end memory_map)
    mapped ← allocate_bitmaps (bitmap_frames end_frame) 0 (new_bootstrap memory_map) table
    let this = raw_allocator raw memory_map end_frame
    this' ← mark_bootstrap memory_map this 0 mapped.0.used
    this'' ← mark_regions this' memory_map
    ret (this'', mapped.1)
