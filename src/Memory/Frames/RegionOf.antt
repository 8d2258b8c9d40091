-- ===== src/Memory/Frames/RegionOf.antt =====
-- `get_frame_ty` of src/memory/frame_allocator/mod.rs: the type of the region of a frame.
use capucho_os.Base.{
  inr, ◌==◌, inl, Bool-cases, ℕ, ◌*◌, ◌≡◌, ◌≤◌, ◌<◌, refl, Bool, List, [], ◌∷◌, ◌++◌, Option, none,
  some, arith, All, ◌&&◌, ltb, leb, ◌∙◌, if◌then◌else◌,
}
use capucho_os.Memory.External.{Crates}
use capucho_os.Memory.Region.{MemoryRegion, MemoryRegionType, IsSorted}
use capucho_os.Memory.Frames.Bitmap.{GlobalFrameAllocator}

abbrev pub IsNonEmpty : MemoryRegion → Type 0
IsNonEmpty r = r.range.start_frame_number < r.range.end_frame_number

-- The type of the first region of a list.
abbrev pub head_type : List MemoryRegion → Option MemoryRegionType
head_type [] = none
head_type (r ∷ rs) = some r.region_type

sorted_after :
    (low : ℕ) (before : List MemoryRegion) (r : MemoryRegion) (after : List MemoryRegion)
    → IsSorted low (before ++ r ∷ after)
    → low ≤ r.range.start_frame_number
sorted_after low [] r after s = s.0
sorted_after low (b ∷ bs) r after s =
    omega (arith, sorted_after b.range.end_frame_number bs r after s.3)

module _ (crates : Crates) where
  -- The closure that the iterator's `find` is given.
  unfoldable pub holds_frame : ℕ → MemoryRegion → Bool
  holds_frame addr v = leb addr (crates.start_addr v.range) && ltb addr (crates.end_addr v.range)

  unfoldable pub find_region : ℕ → List MemoryRegion → Option MemoryRegionType
  find_region addr [] = none
  find_region addr (v ∷ vs) = if holds_frame addr v then some v.region_type else find_region addr vs

  unfoldable pub get_frame_ty : GlobalFrameAllocator → ℕ → Option MemoryRegionType
  get_frame_ty this frame = find_region frame this.memory_map

  -- The first region that starts at the frame or after it is the one that is found.
  find_region_next :
      (i low : ℕ) (rs : List MemoryRegion)
      → IsSorted low rs
      → All IsNonEmpty rs
      → i ≤ low
      → find_region (i * 4096) rs ≡ head_type rs
  unfolding find_region holds_frame
  find_region_next i low [] s n h = refl
  find_region_next i low (r ∷ rs) s n h =
      ground (arith, crates.start_addr_lem r.range, crates.end_addr_lem r.range)

  find_region_skip :
      (i : ℕ) (r : MemoryRegion) (rs : List MemoryRegion)
      → r.range.start_frame_number < i
      → find_region (i * 4096) (r ∷ rs) ≡ find_region (i * 4096) rs
  unfolding find_region holds_frame
  find_region_skip i r rs h =
      ground (arith, crates.start_addr_lem r.range, crates.end_addr_lem r.range)

  -- The region `r` with the frame `i` in it, after its first frame.
  find_region_inside :
      (i low : ℕ) (before : List MemoryRegion) (r : MemoryRegion) (after : List MemoryRegion)
      → IsSorted low (before ++ r ∷ after)
      → All IsNonEmpty (before ++ r ∷ after)
      → r.range.start_frame_number < i
      → i < r.range.end_frame_number
      → find_region (i * 4096) (before ++ r ∷ after) ≡ head_type after
  find_region_inside i low [] r after s n p q =
      find_region_skip i r after p
      ∙ find_region_next i r.range.end_frame_number after s.3 n.1 (omega arith)
  find_region_inside i low (b ∷ bs) r after s n p q =
      let past = sorted_after b.range.end_frame_number bs r after s.3 in
      find_region_skip i b (bs ++ r ∷ after) (omega arith)
      ∙ find_region_inside i b.range.end_frame_number bs r after s.3 n.1 p q

  find_region_first :
      (low : ℕ) (before : List MemoryRegion) (r : MemoryRegion) (after : List MemoryRegion)
      → IsSorted low (before ++ r ∷ after)
      → All IsNonEmpty (before ++ r ∷ after)
      → find_region (r.range.start_frame_number * 4096) (before ++ r ∷ after) ≡ some r.region_type
  find_region_first low [] r after s n =
      find_region_next r.range.start_frame_number r.range.start_frame_number (r ∷ after)
        (omega arith, s.1, s.2, s.3) n (omega arith)
  find_region_first low (b ∷ bs) r after s n =
      let past = sorted_after b.range.end_frame_number bs r after s.3 in
      find_region_skip r.range.start_frame_number b (bs ++ r ∷ after) (omega arith)
      ∙ find_region_first b.range.end_frame_number bs r after s.3 n.1

  -- In a sorted map of regions that are not empty, the first frame of a region gets the type of its
  -- region, and every other frame of the region gets the type of the region that comes next in the
  -- map, and none if there is no next one.
  pub get_frame_ty_lem :
      (this : GlobalFrameAllocator) (before after : List MemoryRegion) (r : MemoryRegion) (i : ℕ)
      → this.memory_map ≡ before ++ r ∷ after
      → IsSorted 0 this.memory_map
      → All IsNonEmpty this.memory_map
      → r.range.start_frame_number ≤ i
      → i < r.range.end_frame_number
      → get_frame_ty this (i * 4096)
        ≡ (if i == r.range.start_frame_number then some r.region_type else head_type after)
  unfolding get_frame_ty
  get_frame_ty_lem this before after r i e s n p q =
      elim (Bool-cases (i == r.range.start_frame_number)) [
        | inl first ↦
            let eq : i ≡ r.range.start_frame_number = ground arith in
            rw (e, first, eq) (find_region_first 0 before r after (rw e at s) (rw e at n))
        | inr later ↦
            rw (e, later)
              (find_region_inside i 0 before r after (rw e at s) (rw e at n) (ground arith) q)
      ]
