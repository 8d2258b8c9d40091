-- ===== src/Memory/Tests.antt =====
-- Runs of src/memory/ at concrete inputs, and the theorems there.
use capucho_os.Base.{
  ℕ, ◌≡◌, ◌≢◌, refl, [], ◌∷◌, some, ret, true, false, arith, ◌*◌, ◌>>=◌, ◌||◌, ◌&&◌, not, ◌==◌,
}
use capucho_os.Memory.Paging.{PagingContext, map_range}
use capucho_os.Memory.Paging.{UnmapGuard, mmap_dev, unmap, extra_flags, guard_mapped}
use capucho_os.Memory.Paging.Release.{Keeps, unmap-mmap_dev}
use capucho_os.Memory.Example.{map_page, drop_page}
use capucho_os.Memory.External.{ok}
use capucho_os.Memory.Frames.Bitmap.{frame_in_use}
use capucho_os.Memory.Frames.RegionOf.{find_region, holds_frame}
use capucho_os.Memory.Paging.Device.{Devices, mmap_dev-Devices}
use capucho_os.Memory.Paging.Range.{Mapped, map_range-Mapped}
use capucho_os.Memory.Example.{
  context, small-IsValid, small-IsFair, crates, mapper, small_map, small, region,
}
use capucho_os.Memory.Region.{usable, frame_zero, other, usable_frames}
use capucho_os.Memory.Region.Laws.{IsUsableFrame, Member}
use capucho_os.Memory.Frames.Bitmap.{
  GlobalFrameAllocator, allocate_frame, deallocate_frame, is_used, mark_used, mark_unused,
  frame_idx_to_parts, find_unused, recalculate_next_usable, skip_below,
}
use capucho_os.Memory.Frames.Marks.{used, is_used-marks}
use capucho_os.Memory.Frames.Allocate.{
  IsValid, Allocates, allocate_frame-Allocates, Flips, deallocate_frame_lem,
}
use capucho_os.Memory.Frames.History.{start, allocate, Distinct, Reach-Distinct, Reach-never_below}
use capucho_os.Memory.Frames.RegionOf.{get_frame_ty, get_frame_ty_lem}
use capucho_os.Memory.Init.{init}
use capucho_os.Memory.Init.Outcome.{Inits, init-Inits}

-- Frames 1 and 2 are taken, so the first allocation finds frame 3.
allocate_third :
    allocate_frame crates small
    ≡ ret (some 0x3000, record small { next_usable = 3; bitmap = 0xfe ∷ 0 ∷ [] })
unfolding allocate_frame recalculate_next_usable find_unused skip_below is_used mark_used
    frame_idx_to_parts usable_frames
allocate_third = refl

allocate_frame-Allocates_example : Allocates small (allocate_frame crates small)
allocate_frame-Allocates_example = allocate_frame-Allocates crates small small-IsValid

is_used-marks_example :
    ((mark_used small 9 >>= λ t. is_used t 2) ≡ (is_used small 2 >>= λ b. ret (9 == 2 || b)))
    × ((mark_unused small 9 >>= λ t. is_used t 2)
        ≡ (is_used small 2 >>= λ b. ret (not (9 == 2) && b)))
is_used-marks_example = is_used-marks small 9 2 (omega arith)

deallocate_frame_lem_example :
    (t : GlobalFrameAllocator) × (deallocate_frame small (2 * 4096) ≡ ret t)
    × (t.next_usable ≡ 0)
    × Flips small t 2 false
deallocate_frame_lem_example = deallocate_frame_lem small 2 (omega arith)

abbrev third : GlobalFrameAllocator
third = record small { next_usable = 3; bitmap = 0xfe ∷ 0 ∷ [] }

Reach-Distinct_example :
    Distinct (3 ∷ [])
    × ((i : ℕ) → Member i (3 ∷ []) → (used third i ≡ true) × IsUsableFrame small_map i)
Reach-Distinct_example =
    Reach-Distinct crates small small-IsValid (allocate 0x3000 start allocate_third)

third-IsValid : IsValid third
third-IsValid = record { sorted = omega arith; covers = λ i m. ground arith }

allocate_eighth :
    allocate_frame crates third
    ≡ ret (some 0x8000, record small { next_usable = 8; bitmap = 0x1fe ∷ 0 ∷ [] })
unfolding allocate_frame recalculate_next_usable find_unused skip_below is_used mark_used
    frame_idx_to_parts usable_frames
allocate_eighth = refl

Reach-never_below_example : ◌≢◌ {A = ℕ} 0x8000 (1 * 4096)
Reach-never_below_example =
    Reach-never_below crates third 0x8000 1 third-IsValid start (omega arith) allocate_eighth

get_frame_ty_lem_example : get_frame_ty crates small (2 * 4096) ≡ some (other 0)
get_frame_ty_lem_example =
    get_frame_ty_lem crates small (region 0 1 frame_zero ∷ [])
      (region 4 8 (other 0) ∷ region 8 40 usable ∷ []) (region 1 4 usable) 2 refl (omega arith)
      (omega arith) (omega arith) (omega arith)

init-Inits_example :
    Inits crates mapper small_map (λ i. 0) 40 [] (init crates mapper (λ i. 0) small_map [])
init-Inits_example =
    init-Inits crates mapper small_map (omega arith) (omega arith) (λ i. 0) 40 [] refl

map_range-Mapped_example :
    Mapped crates mapper small []
      (0x5000 ∷ 0x6000 ∷ [])
      []
      context
      (map_range crates mapper (0x5000 ∷ 0x6000 ∷ []) [] context)
map_range-Mapped_example =
    map_range-Mapped crates mapper small (0x5000 ∷ 0x6000 ∷ []) [] [] context small-IsFair

mmap_dev-Devices_example :
    Devices crates mapper small [] context 0 false (mmap_dev crates mapper context (0 * 4096) false)
mmap_dev-Devices_example =
    mmap_dev-Devices crates mapper small [] context 0 false small-IsFair (omega arith) (omega arith)

-- Frame 0 after it was mapped for a device, with frame 3 for a page table.
abbrev zero_guard : UnmapGuard
zero_guard = record { page = 0; unmap_frame = true }

abbrev zero_context : PagingContext crates mapper
zero_context = record { table = (0, 0) ∷ []; allocator = third }

zero_mapped : mmap_dev crates mapper context (0 * 4096) true ≡ ret (ok zero_guard, zero_context)
unfolding mmap_dev extra_flags guard_mapped get_frame_ty find_region frame_in_use allocate_frame
    recalculate_next_usable find_unused skip_below is_used mark_used frame_idx_to_parts
    usable_frames map_page holds_frame
zero_mapped = refl

zero_found : mapper.unmap 0 zero_context.table ≡ ok (0 * 4096, [])
unfolding drop_page
zero_found = refl

unmap-mmap_dev_example :
    (last : PagingContext crates mapper) × (unmap crates mapper zero_guard zero_context
      ≡ ret (ok tt, last))
    × Keeps small [] zero_context.allocator last.allocator
unmap-mmap_dev_example =
    unmap-mmap_dev small crates mapper [] context zero_context 0 true zero_guard [] small-IsFair
      (omega arith) (omega arith) zero_mapped zero_found
