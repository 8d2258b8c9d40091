-- ===== src/Memory/Heap.antt =====
-- `init_heap` of src/allocator.rs. The heap is the buddy allocator of a crate, so all that is kept of
-- it is whether and with what it was started.
use capucho_os.Base.{
  if◌then◌else◌, message, panics, ℕ, ◌+◌, ◌-◌, ◌*◌, ◌≡◌, Bool, true, List, [], ◌∷◌, Option, some,
  Run, ret, ◌>>=◌, arith,
}
use capucho_os.Memory.External.{Crates, Mapper, MapResult, ok, err, present, writable, steps}
use capucho_os.Memory.Paging.{PagingContext, map_range}
use capucho_os.Memory.Paging.Range.{Mapping, map_range-Mapped}
use capucho_os.Memory.Frames.Bitmap.{GlobalFrameAllocator}
use capucho_os.Memory.Frames.History.{IsFair}

abbrev pub heap_start : ℕ
heap_start = 0x444444440000

abbrev pub heap_size : ℕ
heap_size = 500 * 1024

-- `alloc_error_handler`; the text of the layout at the end of the first message is left out.
unfoldable pub alloc_error_handler : Bool → Run (Unit {0})
alloc_error_handler initialized =
    if initialized
    then panics (message "Allocation error")
    else panics (message "Allocator not initialized")

module _ (crates : Crates) where
  unfoldable pub heap_pages : Run (List ℕ)
  heap_pages = do
    first ← crates.virt_addr_new heap_start
    sum ← crates.virt_addr_new (first + heap_size)
    last ← crates.virt_addr_new (sum - 1)
    ret (crates.page_range_inclusive (crates.page_containing first) (crates.page_containing last))

  -- The range has the 125 pages from the start of the heap on.
  heap_pages_lem : heap_pages ≡ ret (steps 4096 125 heap_start)
  unfolding heap_pages
  heap_pages_lem = rw (
    crates.virt_addr_new_lem heap_start (omega arith),
    crates.virt_addr_new_lem (heap_start + heap_size) (omega arith),
    crates.virt_addr_new_lem (heap_start + heap_size - 1) (omega arith),
    crates.page_containing_lem heap_start,
    crates.page_containing_lem (heap_start + heap_size - 1),
    crates.page_range_inclusive_lem 0x444444440 0x4444444BC,
  )

  module _ (mapper : Mapper) where
    pub record Kernel : Type 0 where
      pub context : PagingContext crates mapper
      pub heap : Option (ℕ × ℕ)
      pub initialized : Bool

    unfoldable pub start_heap :
        Kernel
        → MapResult (Unit {0}) mapper.MapToError × PagingContext crates mapper
        → MapResult (Unit {0}) mapper.MapToError × Kernel
    start_heap this (err e, context) = (err e, record this { context = context })
    start_heap this (ok done, context) = (
      ok tt,
      record { context = context; heap = some (heap_start, heap_size); initialized = true },
    )

    unfoldable pub init_heap : Kernel → Run (MapResult (Unit {0}) mapper.MapToError × Kernel)
    init_heap this = do
      range ← heap_pages
      mapped ← map_range crates mapper range (present ∷ writable ∷ []) this.context
      ret (start_heap this mapped)

    -- From an allocator that a history from `s` led to, `init_heap` does not panic: it is the result of
    -- mapping the 125 pages from the start of the heap on, with what `map_range` keeps of the
    -- allocator, and the start of the heap if all are mapped.
    pub init_heap-Mapped :
        (s : GlobalFrameAllocator) (live : List ℕ) (this : Kernel)
        → IsFair s live this.context.allocator
        → (r : MapResult (Unit {0}) mapper.MapToError) × (after : PagingContext crates mapper)
          × (map_range crates mapper
                (steps 4096 125 heap_start)
                (present ∷ writable ∷ [])
                this.context
              ≡ ret (r, after))
          × (init_heap this ≡ ret (start_heap this (r, after)))
          × Mapping crates mapper s
              (present ∷ writable ∷ [])
              (steps 4096 125 heap_start)
              live
              this.context
              r
              after
    unfolding init_heap
    init_heap-Mapped s live this f =
        let (r, after, run, grown) =
          map_range-Mapped crates mapper s (steps 4096 125 heap_start) (present ∷ writable ∷ [])
            live this.context f in
        (r, after, run, rw (heap_pages_lem, run), grown)
