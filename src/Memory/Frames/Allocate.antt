-- ===== src/Memory/Frames/Allocate.antt =====
-- What `allocate_frame` and `deallocate_frame` of src/memory/frame_allocator/mod.rs promise.
use capucho_os.Base.{
  ℕ, ◌*◌, ◌/◌, ◌≡◌, ◌<◌, ◌≤◌, refl, Bool, true, false, Option, none, some, Run, ret, panics, ◌==◌,
  length, length-set, if◌then◌else◌, arith,
}
use capucho_os.Memory.External.{Crates}
use capucho_os.Memory.Region.{usable_frames, IsSorted}
use capucho_os.Memory.Region.Laws.{
  IsUsableFrame, Member-usable_frames, usable_frames-Rises, usable_frames-All, All-usable_frames,
  IsUsableFrame-lt,
}
use capucho_os.Memory.Frames.Bitmap.{
  GlobalFrameAllocator, recalculate_next_usable, skip_below, allocate_frame, deallocate_frame,
}
use capucho_os.Memory.Frames.Marks.{
  Covers, used, marked, unmarked, mark_used_lem, mark_unused_lem, used-marked, used-unmarked,
}
use capucho_os.Memory.Frames.Search.{
  first_free, found, find_unused_lem, skip_below-All, IsLeastFree, skip_below-IsLeastFree,
}

-- The memory map is sorted and the bitmap has a bit for every usable frame.
pub record IsValid (this : GlobalFrameAllocator) : Type 0 where
  pub sorted : IsSorted 0 this.memory_map
  pub covers : (i : ℕ) → IsUsableFrame this.memory_map i → Covers this i

-- `t` is `this` after a change of the bit of frame `i` to `b`.
pub record Flips (this t : GlobalFrameAllocator) (i : ℕ) (b : Bool) : Type 0 where
  pub same_map : t.memory_map ≡ this.memory_map
  pub same_length : length t.bitmap ≡ length this.bitmap
  pub bits : (j : ℕ) → used t j ≡ (if i == j then b else used this j)

-- The outcomes of an allocation: the least free usable frame from `next_usable` on is handed out
-- and marked, or there is none and nothing changes.
abbrev pub Allocates : GlobalFrameAllocator → Run (Option ℕ × GlobalFrameAllocator) → Type 0
Allocates this (panics p) = ⊥
Allocates this (ret (none, t)) =
    (t ≡ this)
    × ((j : ℕ) → IsUsableFrame this.memory_map j → this.next_usable ≤ j → used this j ≡ true)
Allocates this (ret (some a, t)) =
    (a ≡ t.next_usable * 4096)
    × IsUsableFrame this.memory_map t.next_usable
    × (this.next_usable ≤ t.next_usable)
    × (used this t.next_usable ≡ false)
    × ((j : ℕ)
        → IsUsableFrame this.memory_map j
        → this.next_usable ≤ j
        → j < t.next_usable
        → used this j ≡ true)
    × Flips this t t.next_usable true

pub Flips-IsValid :
    {this t : GlobalFrameAllocator} {i : ℕ} {b : Bool} → Flips this t i b → IsValid this → IsValid t
Flips-IsValid f v = record {
  sorted = rw f.same_map v.sorted;
  covers = λ j u. rw f.same_length (v.covers j (rw f.same_map at u));
}

pub marked-Flips :
    (this : GlobalFrameAllocator) (i : ℕ) → Covers this i → Flips this (marked this i) i true
marked-Flips this i h = record {
  same_map = refl;
  same_length = length-set this.bitmap _ _;
  bits = λ j. used-marked this i j h;
}

pub unmarked-Flips :
    (this : GlobalFrameAllocator) (i : ℕ) → Covers this i → Flips this (unmarked this i) i false
unmarked-Flips this i h = record {
  same_map = refl;
  same_length = length-set this.bitmap _ _;
  bits = λ j. used-unmarked this i j h;
}

recalculate_lem :
    (this : GlobalFrameAllocator)
    → IsValid this
    → recalculate_next_usable this
      ≡ ret (
          found this
            (first_free this (skip_below this.next_usable (usable_frames this.memory_map))))
unfolding recalculate_next_usable
recalculate_lem this v = find_unused_lem this _ (
    skip_below-All (Covers this) this.next_usable (usable_frames this.memory_map)
      (usable_frames-All (Covers this) this.memory_map v.covers))

module _ (crates : Crates) where
  allocate_found :
      (this : GlobalFrameAllocator) (o : Option ℕ)
      → IsValid this
      → recalculate_next_usable this ≡ ret (found this o)
      → IsLeastFree this (usable_frames this.memory_map) this.next_usable o
      → Allocates this (allocate_frame crates this)
  unfolding allocate_frame
  allocate_found this none v e h = rw e (refl, All-usable_frames _ this.memory_map h)
  allocate_found this (some i) v e h =
      let usable = Member-usable_frames this.memory_map i h.0 in
      let next = record this { next_usable = i } in
      let covered : Covers next i = v.covers i usable in
      let below = IsUsableFrame-lt 0 this.memory_map i v.sorted usable in
      let f = marked-Flips next i covered in
      rw (e, mark_used_lem next i covered, crates.phys_addr_new_lem (i * 0x1000) (omega arith))
        (
          refl,
          usable,
          h.1,
          h.2,
          All-usable_frames _ this.memory_map h.3,
          record { same_map = refl; same_length = f.same_length; bits = f.bits },
        )

  -- In a valid allocator `allocate_frame` never panics: it hands out the least free usable frame
  -- from `next_usable` on, which it marks, changing no other bit; or there is none, and it changes
  -- nothing.
  pub allocate_frame-Allocates :
      (this : GlobalFrameAllocator) → IsValid this → Allocates this (allocate_frame crates this)
  allocate_frame-Allocates this v = allocate_found this _ v (recalculate_lem this v) (
      skip_below-IsLeastFree this this.next_usable 0 (usable_frames this.memory_map)
        (usable_frames-Rises 0 this.memory_map v.sorted))

-- Deallocating a frame that the bitmap covers clears its bit and changes nothing else.
pub deallocate_frame_lem :
    (this : GlobalFrameAllocator) (i : ℕ)
    → Covers this i
    → (t : GlobalFrameAllocator) × (deallocate_frame this (i * 4096) ≡ ret t)
      × (t.next_usable ≡ this.next_usable)
      × Flips this t i false
unfolding deallocate_frame
deallocate_frame_lem this i h =
    let idx : i * 4096 / 4096 ≡ i = omega arith in
    (unmarked this i, rw (idx, mark_unused_lem this i h), refl, unmarked-Flips this i h)
