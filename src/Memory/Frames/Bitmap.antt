-- ===== src/Memory/Frames/Bitmap.antt =====
-- `GlobalFrameAllocator` and its operations on the bitmap.
use capucho_os.Base.{
  ℕ, ◌-◌, ◌*◌, ◌/◌, ◌%◌, ◌^◌, Bool, true, false, not, List, [], ◌∷◌, Option, none, some, Run, ret,
  index_out_of_bounds, or_panic, ◌>>=◌, bit_and, bit_or, u32, ◌<<<◌, ◌==◌, get_elem?, set, ltb,
  if◌then◌else◌,
}
use capucho_os.Memory.External.{Crates}
use capucho_os.Memory.Region.{MemoryRegion, usable_frames}

pub record GlobalFrameAllocator : Type 0 where
  pub memory_map : List MemoryRegion
  pub next_usable : ℕ
  pub bitmap : List ℕ

-- The word of the bitmap and the mask in it.
unfoldable pub frame_idx_to_parts : ℕ → ℕ × ℕ
frame_idx_to_parts idx = let bit = u32 idx % 32 in (idx / 32, 1 <<< bit)

unfoldable pub is_used : GlobalFrameAllocator → ℕ → Run Bool
is_used this idx = do
  let int = (frame_idx_to_parts idx).0
  let mask = (frame_idx_to_parts idx).1
  word ← or_panic index_out_of_bounds (get_elem? this.bitmap int)
  ret (not (bit_and word mask == 0))

unfoldable pub mark_used : GlobalFrameAllocator → ℕ → Run GlobalFrameAllocator
mark_used this idx = do
  let int = (frame_idx_to_parts idx).0
  let mask = (frame_idx_to_parts idx).1
  word ← or_panic index_out_of_bounds (get_elem? this.bitmap int)
  ret (record this { bitmap = set this.bitmap int (bit_or word mask) })

-- `!mask` on a `u32` is `2 ^ 32 - 1 - mask`.
unfoldable pub mark_unused : GlobalFrameAllocator → ℕ → Run GlobalFrameAllocator
mark_unused this idx = do
  let int = (frame_idx_to_parts idx).0
  let mask = (frame_idx_to_parts idx).1
  word ← or_panic index_out_of_bounds (get_elem? this.bitmap int)
  ret (record this { bitmap = set this.bitmap int (bit_and word (2 ^ 32 - 1 - mask)) })

unfoldable pub frame_in_use : GlobalFrameAllocator → ℕ → Run Bool
frame_in_use this frame = is_used this (frame / 0x1000)

unfoldable pub deallocate_frame : GlobalFrameAllocator → ℕ → Run GlobalFrameAllocator
deallocate_frame this frame = mark_unused this (frame / 0x1000)

unfoldable pub skip_below : ℕ → List ℕ → List ℕ
skip_below n [] = []
skip_below n (i ∷ is) = if ltb i n then skip_below n is else i ∷ is

-- The loop over the frames that are left: the first one that is not in use becomes `next_usable`.
unfoldable pub find_unused : GlobalFrameAllocator → List ℕ → Run (Bool × GlobalFrameAllocator)
find_unused this [] = ret (false, this)
find_unused this (i ∷ is) = is_used this i >>= λ b. elim b [
  | true ↦ find_unused this is
  | false ↦ ret (true, record this { next_usable = i })
]

unfoldable pub recalculate_next_usable : GlobalFrameAllocator → Run (Bool × GlobalFrameAllocator)
recalculate_next_usable this =
    find_unused this (skip_below this.next_usable (usable_frames this.memory_map))

module _ (crates : Crates) where
  unfoldable pub allocate_frame : GlobalFrameAllocator → Run (Option ℕ × GlobalFrameAllocator)
  allocate_frame this = recalculate_next_usable this >>= λ r. elim r.0 [
    | true ↦ do
      let found = r.1
      let i = found.next_usable
      marked ← mark_used found i
      addr ← crates.phys_addr_new (i * 0x1000)
      ret (some addr, marked)
    | false ↦ ret (none, r.1)
  ]
