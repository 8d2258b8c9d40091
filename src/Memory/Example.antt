-- ===== src/Memory/Example.antt =====
-- Concrete crates and a concrete memory map, which the tests evaluate.
use capucho_os.Memory.Frames.Allocate.{IsValid}
use capucho_os.Memory.Frames.History.{IsFair, Reach-IsFair, start}
use capucho_os.Memory.Paging.{PagingContext}
use capucho_os.Base.{
  ◌%◌, ◌==◌, if◌then◌else◌, ℕ, ◌+◌, ◌-◌, ◌*◌, ◌/◌, ◌≡◌, refl, List, [], ◌∷◌, Option, none, some,
  Run, ret, panics, ◌>>=◌, arith,
}
use capucho_os.Memory.External.{
  Crates, Mapper, MapResult, ok, err, steps, no_call, call, failed_call, CallsOnly,
}
use capucho_os.Memory.Region.{MemoryRegion, MemoryRegionType, usable, frame_zero, other}
use capucho_os.Memory.Frames.Bitmap.{GlobalFrameAllocator}

unfoldable pub frames : ℕ → ℕ → List ℕ
frames a b = steps 4096 (b / 4096 - a / 4096) a

pub frames_lem : (m n : ℕ) → frames (m * 4096) (n * 4096) ≡ steps 4096 (n - m) (m * 4096)
unfolding frames
frames_lem m n =
    let p : m * 4096 / 4096 ≡ m = omega arith in
    let q : n * 4096 / 4096 ≡ n = omega arith in rw (p, q)

unfoldable pub frames_inclusive : ℕ → ℕ → List ℕ
frames_inclusive a b = steps 4096 (b / 4096 + 1 - a / 4096) a

pub frames_inclusive_lem :
    (m n : ℕ) → frames_inclusive (m * 4096) (n * 4096) ≡ steps 4096 (n + 1 - m) (m * 4096)
unfolding frames_inclusive
frames_inclusive_lem m n =
    let p : m * 4096 / 4096 ≡ m = omega arith in
    let q : n * 4096 / 4096 ≡ n = omega arith in rw (p, q)

unfoldable pub from_start : ℕ → Option ℕ
from_start a = if a % 4096 == 0 then some a else none

pub from_start_lem : (n : ℕ) → from_start (n * 4096) ≡ some (n * 4096)
unfolding from_start
from_start_lem n = ground arith

-- The crates as their documentation describes them, with no address refused.
abbrev pub crates : Crates
crates = record {
  phys_addr_new = ret;
  phys_addr_new_lem = λ a h. refl;
  virt_addr_new = ret;
  virt_addr_new_lem = λ a h. refl;
  frame_containing = λ a. a / 4096 * 4096;
  frame_containing_lem = λ a. refl;
  page_containing = λ a. a / 4096 * 4096;
  page_containing_lem = λ a. refl;
  frame_from_start = from_start;
  frame_from_start_lem = from_start_lem;
  page_from_start = from_start;
  page_from_start_lem = from_start_lem;
  frame_range_inclusive = frames_inclusive;
  frame_range_inclusive_lem = frames_inclusive_lem;
  page_range_inclusive = frames_inclusive;
  page_range_inclusive_lem = frames_inclusive_lem;
  page_range = frames;
  page_range_lem = frames_lem;
  start_addr = λ r. r.start_frame_number * 4096;
  start_addr_lem = λ r. refl;
  end_addr = λ r. r.end_frame_number * 4096;
  end_addr_lem = λ r. refl;
}

-- A mapper that takes one frame for a page table at each call, and keeps a list of its mappings.
abbrev pub Pages : Type 0
Pages = List (ℕ × ℕ)

unfoldable pub map_page :
    {A : Type 0} → ℕ → ℕ → Pages → Option ℕ × A → Run (MapResult (Unit {0}) (Unit {0}) × A × Pages)
map_page page frame table (none, a) = ret (err tt, a, table)
map_page page frame table (some f, a) = ret (ok tt, a, (page, frame) ∷ table)

pub map_page_calls :
    {A : Type 0} (allocate : A → Run (Option ℕ × A)) (page frame : ℕ) (table : Pages) (a : A)
    (out : Run (Option ℕ × A))
    → allocate a ≡ out
    → CallsOnly allocate a (out >>= map_page page frame table)
unfolding map_page
map_page_calls allocate page frame table a (panics p) e = ([], a, no_call, e)
map_page_calls allocate page frame table a (ret (none, b)) e = ([], failed_call no_call e)
map_page_calls allocate page frame table a (ret (some f, b)) e = (f ∷ [], call f no_call e)

unfoldable pub drop_page : ℕ → Pages → MapResult (ℕ × Pages) (Unit {0})
drop_page page [] = err tt
drop_page page ((p, f) ∷ rest) = ok (f, rest)

abbrev pub mapper : Mapper
mapper = record {
  Table = Pages;
  MapToError = Unit {0};
  frame_allocation_failed = tt;
  UnmapError = Unit {0};
  map_to = λ A allocate page frame flags a table. allocate a >>= map_page page frame table;
  map_to_calls = λ A allocate page frame flags a table.
      map_page_calls allocate page frame table a (allocate a) refl;
  identity_map = λ A allocate frame flags a table. allocate a >>= map_page frame frame table;
  identity_map_calls = λ A allocate frame flags a table.
      map_page_calls allocate frame frame table a (allocate a) refl;
  unmap = drop_page;
}

abbrev pub region : ℕ → ℕ → MemoryRegionType → MemoryRegion
region a b ty = record {
  range = record { start_frame_number = a; end_frame_number = b };
  region_type = ty;
}

-- Four regions: frame 0, three usable frames, the kernel, and usable frames again.
abbrev pub small_map : List MemoryRegion
small_map =
    region 0 1 frame_zero ∷ region 1 4 usable ∷ region 4 8 (other 0) ∷ region 8 40 usable ∷ []

abbrev pub small : GlobalFrameAllocator
small = record { memory_map = small_map; next_usable = 0; bitmap = 0xf6 ∷ 0 ∷ [] }

pub small-IsValid : IsValid small
small-IsValid = record { sorted = omega arith; covers = λ i m. ground arith }

abbrev pub context : PagingContext crates mapper
context = record { table = []; allocator = small }

pub small-IsFair : IsFair small [] small
small-IsFair = Reach-IsFair crates small small-IsValid start
