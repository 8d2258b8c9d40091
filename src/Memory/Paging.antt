-- ===== src/Memory/Paging.antt =====
-- src/memory/mod.rs: the paging context, the page tables with the frame allocator.
pub mod Grown
pub mod Range
pub mod Device
pub mod Release
use capucho_os.Base.{
  if◌then◌else◌, ℕ, zero, suc, ◌≡◌, Bool, true, false, not, List, [], ◌∷◌, ◌++◌, Option, none, some,
  Run, ret, panics, message, ◌>>=◌,
}
use capucho_os.Memory.External.{
  Crates, Mapper, MapResult, ok, err, Flag, present, writable, no_cache, write_through,
}
use capucho_os.Memory.Region.{
  MemoryRegionType, usable, reserved, acpi_reclaimable, frame_zero, kernel_stack, other,
}
use capucho_os.Memory.Frames.Bitmap.{
  GlobalFrameAllocator, allocate_frame, deallocate_frame, frame_in_use,
}
use capucho_os.Memory.Frames.RegionOf.{get_frame_ty}

pub record UnmapGuard : Type 0 where
  pub page : ℕ
  pub unmap_frame : Bool

-- The flags that the type of the frame adds, or none if a device must not be there.
unfoldable pub extra_flags : MemoryRegionType → Bool → Option (List Flag)
extra_flags reserved acpi = some (writable ∷ [])
extra_flags frame_zero acpi = some (writable ∷ [])
extra_flags kernel_stack acpi = if acpi then some [] else none
extra_flags _ acpi = none

module _ (crates : Crates) (mapper : Mapper) where
  pub record PagingContext : Type 0 where
    pub table : mapper.Table
    pub allocator : GlobalFrameAllocator

  -- What `?` makes of the mapper's result, and then the guard.
  unfoldable pub guard_mapped :
      ℕ
      → ℕ
      → MapResult (Unit {0}) mapper.MapToError × GlobalFrameAllocator × mapper.Table
      → Run (MapResult UnmapGuard mapper.MapToError × PagingContext)
  guard_mapped frame page (err e, allocator, table) =
      ret (err e, record { table = table; allocator = allocator })
  guard_mapped frame page (ok done, allocator, table) = do
    used ← frame_in_use allocator frame
    ret (
      ok (record { page = page; unmap_frame = not used }),
      record { table = table; allocator = allocator },
    )

  unfoldable pub mmap_dev :
      PagingContext → ℕ → Bool → Run (MapResult UnmapGuard mapper.MapToError × PagingContext)
  mmap_dev ctx frame acpi = elim (get_frame_ty crates ctx.allocator frame) [
    | none ↦ ret (err mapper.frame_allocation_failed, ctx)
    | some ty ↦ elim (extra_flags ty acpi) [
      | none ↦ panics (message "Tried to mmap a device on a wrong frame")
      | some extra ↦ do
        addr ← crates.virt_addr_new frame
        mapped ←
            mapper.identity_map _ (allocate_frame crates) frame
              (present ∷ no_cache ∷ write_through ∷ extra) ctx.allocator ctx.table
        guard_mapped frame (crates.page_containing addr) mapped
    ]
  ]

  unfoldable pub unmap :
      UnmapGuard → PagingContext → Run (MapResult (Unit {0}) mapper.UnmapError × PagingContext)
  unmap guard ctx = elim (mapper.unmap guard.page ctx.table) [
    | err e ↦ ret (err e, ctx)
    | ok r ↦
        if guard.unmap_frame
        then (deallocate_frame ctx.allocator r.0 >>= λ freed.
            ret (ok tt, record { table = r.1; allocator = freed }))
        else ret (ok tt, record { table = r.1; allocator = ctx.allocator })
  ]

  -- `map_range`: the first error ends the loop.
  unfoldable pub map_range :
      List ℕ
      → List Flag
      → PagingContext
      → Run (MapResult (Unit {0}) mapper.MapToError × PagingContext)
  map_range [] flags ctx = ret (ok tt, ctx)
  map_range (page ∷ range) flags ctx = allocate_frame crates ctx.allocator >>= λ allocated.
      elim allocated.0 [
        | none ↦ ret (
          err mapper.frame_allocation_failed,
          record { table = ctx.table; allocator = allocated.1 },
        )
        | some frame ↦
            mapper.map_to _ (allocate_frame crates) page frame flags allocated.1 ctx.table
            >>= λ mapped.
                let after : PagingContext = record { table = mapped.2; allocator = mapped.1 } in
                elim mapped.0 [ err e ↦ ret (err e, after) | ok done ↦ map_range range flags after ]
      ]
