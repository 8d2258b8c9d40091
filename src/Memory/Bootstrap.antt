-- ===== src/Memory/Bootstrap.antt =====
-- src/memory/frame_allocator/bootstrap.rs: the allocator that hands out the frames of the bitmap
-- and of the page tables that map it, before the bitmap exists.
pub mod Taken
pub mod Invariant
pub mod Allocate
use capucho_os.Base.{
  ℕ, zero, suc, ◌+◌, ◌-◌, ◌/◌, ◌≡◌, ◌<◌, ◌^◌, refl, List, [], ◌∷◌, ◌++◌, map, Option, none, some,
  Run, ret, panics, index_out_of_bounds, message, or_panic, ◌>>=◌, ◌>>◌, get_elem?, set,
  if◌then◌else◌, arith,
}
use capucho_os.Memory.External.{Crates, steps, Mapper, MapResult, ok, err, present, writable}
use capucho_os.Memory.Region.{MemoryRegion, is_usable}

pub record BootStrapAllocator : Type 0 where
  pub memory_map : List MemoryRegion
  pub next : ℕ
  pub used : List ℕ

module _ (crates : Crates) where
  -- The address of each usable frame, with the number of its region; `step_by(4096)` takes every
  -- 4096th address of the region.
  unfoldable pub frame_addresses : ℕ → List MemoryRegion → List (ℕ × ℕ)
  frame_addresses i [] = []
  frame_addresses i (r ∷ rs) =
      let start = crates.start_addr r.range in
      let end = crates.end_addr r.range in
      let rest = frame_addresses (suc i) rs in
      if is_usable r.region_type
      then map (λ a. (a, i)) (steps 4096 ((end - start + 4095) / 4096) start) ++ rest
      else rest

  -- `usable_frames().nth(n)`: the iterator makes a frame of every address that it passes.
  unfoldable pub nth_frame : ℕ → List (ℕ × ℕ) → Run (Option (ℕ × ℕ))
  nth_frame n [] = ret none
  nth_frame zero ((a, block) ∷ rest) = do
    addr ← crates.phys_addr_new a
    ret (some (crates.frame_containing addr, block))
  nth_frame (suc n) ((a, block) ∷ rest) = crates.phys_addr_new a >>= λ addr. nth_frame n rest

  unfoldable pub take_frame : BootStrapAllocator → ℕ → ℕ → Run (Option ℕ × BootStrapAllocator)
  take_frame this frame block = do
    count ← or_panic index_out_of_bounds (get_elem? this.used block)
    ret (some frame, record this { next = this.next + 1; used = set this.used block (count + 1) })

  unfoldable pub boot_allocate_frame : BootStrapAllocator → Run (Option ℕ × BootStrapAllocator)
  boot_allocate_frame this = nth_frame this.next (frame_addresses 0 this.memory_map) >>= λ o.
      elim o [ none ↦ ret (none, this) | some p ↦ take_frame this p.0 p.1 ]

  module _ (mapper : Mapper) where
    -- The result of `expect("Failed to map")`; `flush` only drops a stale translation.
    unfoldable pub expect_mapped :
        MapResult (Unit {0}) mapper.MapToError × BootStrapAllocator × mapper.Table
        → Run (BootStrapAllocator × mapper.Table)
    expect_mapped (ok _, this, table) = ret (this, table)
    expect_mapped (err _, this, table) = panics (message "Failed to map")

    unfoldable pub allocate_bitmap_frame :
        BootStrapAllocator → mapper.Table → ℕ → Run (BootStrapAllocator × mapper.Table)
    allocate_bitmap_frame this table addr = do
      allocated ← boot_allocate_frame this
      frame ← or_panic (message "Failed to allocate frame") allocated.0
      page ← crates.virt_addr_new addr
      mapped ←
          mapper.map_to _ boot_allocate_frame page frame (present ∷ writable ∷ []) allocated.1 table
      expect_mapped mapped
