-- ===== src/Memory/External.antt =====
-- What src/memory/, src/acpi.rs and src/allocator.rs use of the crates `x86_64` and `bootloader`.
-- A `PhysFrame<Size4KiB>` or a `Page<Size4KiB>` is given by its start address, a `PhysAddr` or a
-- `VirtAddr` by its number. Every function of the crates is a field, with its documentation as laws.
use capucho_os.Base.{
  panics, none, some, Option, ℕ, zero, suc, ◌+◌, ◌-◌, ◌*◌, ◌/◌, ◌^◌, ◌<◌, ◌≡◌, List, [], ◌∷◌, Run,
  ret,
}

-- `a, a + k, a + 2k, …`, with `n` members.
abbrev pub steps : ℕ → ℕ → ℕ → List ℕ
steps k zero a = []
steps k (suc n) a = a ∷ steps k n (a + k)

-- `bootloader::bootinfo::FrameRange`; the end is exclusive.
pub record FrameRange : Type 0 where
  pub start_frame_number : ℕ
  pub end_frame_number : ℕ

pub record Crates : Type 0 where
  -- `PhysAddr::new` panics if one of the bits 52 to 63 is set.
  pub phys_addr_new : ℕ → Run ℕ
  pub phys_addr_new_lem : (a : ℕ) → a < 2 ^ 52 → phys_addr_new a ≡ ret a
  -- `VirtAddr::new` panics on an address that is not canonical; the lower half is.
  pub virt_addr_new : ℕ → Run ℕ
  pub virt_addr_new_lem : (a : ℕ) → a < 2 ^ 47 → virt_addr_new a ≡ ret a
  -- `PhysFrame::containing_address` and `Page::containing_address`.
  pub frame_containing : ℕ → ℕ
  pub frame_containing_lem : (a : ℕ) → frame_containing a ≡ a / 4096 * 4096
  pub page_containing : ℕ → ℕ
  pub page_containing_lem : (a : ℕ) → page_containing a ≡ a / 4096 * 4096
  -- `PhysFrame::from_start_address` and `Page::from_start_address`: none is their error.
  pub frame_from_start : ℕ → Option ℕ
  pub frame_from_start_lem : (n : ℕ) → frame_from_start (n * 4096) ≡ some (n * 4096)
  pub page_from_start : ℕ → Option ℕ
  pub page_from_start_lem : (n : ℕ) → page_from_start (n * 4096) ≡ some (n * 4096)
  -- `PhysFrame::range_inclusive`, `Page::range_inclusive` and `Page::range`, as iterators.
  pub frame_range_inclusive : ℕ → ℕ → List ℕ
  pub frame_range_inclusive_lem :
      (m n : ℕ) → frame_range_inclusive (m * 4096) (n * 4096) ≡ steps 4096 (n + 1 - m) (m * 4096)
  pub page_range_inclusive : ℕ → ℕ → List ℕ
  pub page_range_inclusive_lem :
      (m n : ℕ) → page_range_inclusive (m * 4096) (n * 4096) ≡ steps 4096 (n + 1 - m) (m * 4096)
  pub page_range : ℕ → ℕ → List ℕ
  pub page_range_lem : (m n : ℕ) → page_range (m * 4096) (n * 4096) ≡ steps 4096 (n - m) (m * 4096)
  -- `FrameRange::start_addr` and `FrameRange::end_addr`.
  pub start_addr : FrameRange → ℕ
  pub start_addr_lem : (r : FrameRange) → start_addr r ≡ r.start_frame_number * 4096
  pub end_addr : FrameRange → ℕ
  pub end_addr_lem : (r : FrameRange) → end_addr r ≡ r.end_frame_number * 4096

-- The flags of `PageTableFlags` that the source names; a set of flags is a list.
pub data Flag : Type 0 where
  present writable no_cache write_through : Flag

pub data MapResult (A E : Type 0) : Type 0 where
  ok : A → MapResult A E
  err : E → MapResult A E

-- `Calls allocate a fs b`: calls of `allocate` lead from the state `a` to `b` and hand out `fs`.
pub data Calls {A : Type 0} (allocate : A → Run (Option ℕ × A)) (a : A) : List ℕ → A → Type 0 where
  no_call : Calls allocate a [] a
  call :
      {fs : List ℕ} {b c : A} (f : ℕ)
      → Calls allocate a fs b
      → allocate b ≡ ret (some f, c)
      → Calls allocate a (f ∷ fs) c
  failed_call :
      {fs : List ℕ} {b c : A}
      → Calls allocate a fs b
      → allocate b ≡ ret (none, c)
      → Calls allocate a fs c

-- What the outcome of a call of the mapper says of the frame allocator that it was given: it was
-- reached by calls of `allocate_frame` alone. A panic of the mapper is one of the allocator.
abbrev pub CallsOnly : {A T R : Type 0} → (A → Run (Option ℕ × A)) → A → Run (R × A × T) → Type 0
CallsOnly allocate a (ret r) = (fs : List ℕ) × Calls allocate a fs r.1
CallsOnly {A} allocate a (panics p) =
    (fs : List ℕ) × (b : A) × Calls allocate a fs b × (allocate b ≡ panics p)

-- The trait `Mapper<Size4KiB>`: page tables, which a call may extend by frames of the allocator
-- that it is given.
pub record Mapper : Type 1 where
  pub Table : Type 0
  pub MapToError : Type 0
  pub frame_allocation_failed : MapToError
  pub UnmapError : Type 0
  pub map_to :
      (A : Type 0) (allocate : A → Run (Option ℕ × A)) (page frame : ℕ) (flags : List Flag)
      → A
      → Table
      → Run (MapResult (Unit {0}) MapToError × A × Table)
  pub map_to_calls :
      (A : Type 0) (allocate : A → Run (Option ℕ × A)) (page frame : ℕ) (flags : List Flag) (a : A)
      (table : Table)
      → CallsOnly allocate a (map_to A allocate page frame flags a table)
  pub identity_map :
      (A : Type 0) (allocate : A → Run (Option ℕ × A)) (frame : ℕ) (flags : List Flag)
      → A
      → Table
      → Run (MapResult (Unit {0}) MapToError × A × Table)
  pub identity_map_calls :
      (A : Type 0) (allocate : A → Run (Option ℕ × A)) (frame : ℕ) (flags : List Flag) (a : A)
      (table : Table)
      → CallsOnly allocate a (identity_map A allocate frame flags a table)
  -- The frame that the page was mapped to, and the tables without the page.
  pub unmap : ℕ → Table → MapResult (ℕ × Table) UnmapError
