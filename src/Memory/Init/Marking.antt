-- ===== src/Memory/Init/Marking.antt =====
-- The marking loops of `GlobalFrameAllocator::init` (src/memory/frame_allocator/mod.rs).
use capucho_os.Base.{
  ℕ, zero, suc, ◌+◌, ◌-◌, ◌≡◌, ◌≤◌, ◌<◌, ◌⊎◌, inl, inr, refl, Bool, true, false, not, List, [], ◌∷◌,
  Option, none, some, ret, get_elem?, length, ◌==◌, ltb, leb, ◌&&◌, ◌||◌, arith, Bool-cases, ◌∙◌,
}
use capucho_os.Memory.External.{steps}
use capucho_os.Memory.Region.{MemoryRegion, IsSorted}
use capucho_os.Memory.Frames.Bitmap.{GlobalFrameAllocator}
use capucho_os.Memory.Frames.Marks.{Covers, used, marked, mark_used_lem}
use capucho_os.Memory.Frames.Allocate.{marked-Flips}
use capucho_os.Memory.Init.{mark_each, mark_size, mark_bootstrap, mark_regions, is_skipped}

abbrev pub in_range : ℕ → ℕ → ℕ → Bool
in_range a n i = leb a i && ltb i (a + n)

-- The first `size` frames of a region.
abbrev pub in_region : Option MemoryRegion → ℕ → ℕ → Bool
in_region none size i = false
in_region (some r) size i = in_range r.range.start_frame_number size i

-- The frames that the loop over `bootstrap.used` marks.
abbrev pub handed_out : List MemoryRegion → ℕ → List ℕ → ℕ → Bool
handed_out regions block [] i = false
handed_out regions block (size ∷ sizes) i =
    in_region (get_elem? regions block) size i || handed_out regions (suc block) sizes i

-- The frames that the loop over the memory map marks.
abbrev pub set_aside : List MemoryRegion → ℕ → Bool
set_aside [] i = false
set_aside (r ∷ rs) i =
    (not (is_skipped r.region_type)
      && (leb r.range.start_frame_number i && ltb i r.range.end_frame_number))
    || set_aside rs i

-- `t` is `this` with the frames of `marks` marked.
pub record Marks (this t : GlobalFrameAllocator) (marks : ℕ → Bool) : Type 0 where
  pub same_map : t.memory_map ≡ this.memory_map
  pub same_next : t.next_usable ≡ this.next_usable
  pub same_length : length t.bitmap ≡ length this.bitmap
  pub bits : (i : ℕ) → used t i ≡ (marks i || used this i)

pub Marks-none : (this : GlobalFrameAllocator) → Marks this this (λ _. false)
Marks-none this = record { same_map = refl; same_next = refl; same_length = refl; bits = λ i. refl }

or_comm : (a b : Bool) → (a || b) ≡ (b || a)
or_comm true true = refl
or_comm true false = refl
or_comm false true = refl
or_comm false false = refl

pub Marks-trans :
    {a b c : GlobalFrameAllocator} {s t : ℕ → Bool} (u : ℕ → Bool)
    → ((i : ℕ) → u i ≡ (t i || s i))
    → Marks a b s
    → Marks b c t
    → Marks a c u
Marks-trans {s = s} {t = t} u e h k = record {
  same_map = k.same_map ∙ h.same_map;
  same_next = k.same_next ∙ h.same_next;
  same_length = k.same_length ∙ h.same_length;
  bits = λ i. k.bits i ∙ rw (h.bits i, e i) (regroup (t i) (s i) _);
}
  where
    regroup : (x y z : Bool) → (x || (y || z)) ≡ ((x || y) || z)
    regroup true y z = refl
    regroup false y z = refl

Covers-Marks :
    {this t : GlobalFrameAllocator} {marks : ℕ → Bool} (n : ℕ)
    → Marks this t marks
    → ((i : ℕ) → i < n → Covers this i)
    → (i : ℕ) → i < n
    → Covers t i
Covers-Marks n h c i p = rw h.same_length (c i p)

-- A range of frames that the bitmap covers is marked without a panic.
pub mark_each-Marks :
    (this : GlobalFrameAllocator) (n a : ℕ)
    → ((i : ℕ) → i < a + n → Covers this i)
    → (t : GlobalFrameAllocator) × (mark_each this (steps 1 n a) ≡ ret t)
      × Marks this t (in_range a n)
unfolding mark_each
mark_each-Marks this zero a c = (
  this,
  refl,
  Marks-trans (in_range a zero) (λ i. ground arith) (Marks-none this) (Marks-none this),
)
mark_each-Marks this (suc n) a c =
    let covered = c a (omega arith) in
    let flip = marked-Flips this a covered in
    let one : Marks this (marked this a) (λ i. a == i) = record {
      same_map = refl;
      same_next = refl;
      same_length = flip.same_length;
      bits = λ i. flip.bits i ∙ ground arith;
    } in
    let (t, out, rest) =
      mark_each-Marks (marked this a) n (a + 1)
        (λ i p. Covers-Marks (a + suc n) one c i (omega arith)) in
    (
      t,
      rw (mark_used_lem this a covered) out,
      Marks-trans (in_range a (suc n)) (λ i. ground arith) one rest,
    )

-- The frames that are counted for each region lie below `bound`.
abbrev pub Fits : List MemoryRegion → ℕ → ℕ → List ℕ → Type 0
Fits regions bound block [] = Unit
Fits regions bound block (size ∷ sizes) =
    ((size ≡ 0)
      ⊎ ((r : MemoryRegion) × (get_elem? regions block ≡ some r)
          × (r.range.start_frame_number + size ≤ bound)))
    × Fits regions bound (suc block) sizes

in_region_none : (o : Option MemoryRegion) (i : ℕ) → in_region o 0 i ≡ false
in_region_none none i = refl
in_region_none (some r) i = ground arith

mark_empty :
    (regions : List MemoryRegion) (this : GlobalFrameAllocator) (block size : ℕ)
    → size ≡ 0
    → (t : GlobalFrameAllocator) × (mark_size regions this block size ≡ ret t)
      × Marks this t (in_region (get_elem? regions block) size)
unfolding mark_size
mark_empty regions this block size e = (
  this,
  rw e,
  Marks-trans (in_region (get_elem? regions block) size)
      (λ i. rw e (in_region_none (get_elem? regions block) i)) (Marks-none this) (Marks-none this),
)

mark_block :
    (regions : List MemoryRegion) (bound : ℕ) (this : GlobalFrameAllocator) (block size : ℕ)
    → ((i : ℕ) → i < bound → Covers this i)
    → ((size ≡ 0)
        ⊎ ((r : MemoryRegion) × (get_elem? regions block ≡ some r)
            × (r.range.start_frame_number + size ≤ bound)))
    → (t : GlobalFrameAllocator) × (mark_size regions this block size ≡ ret t)
      × Marks this t (in_region (get_elem? regions block) size)
unfolding mark_size
mark_block regions bound this block size c (inl e) = mark_empty regions this block size e
mark_block regions bound this block size c (inr (r, at, le)) = elim (Bool-cases (size == 0)) [
  | inl e ↦ mark_empty regions this block size (ground arith)
  | inr e ↦
      let (t, out, done) =
        mark_each-Marks this size r.range.start_frame_number (λ i p. c i (omega arith)) in
      (t, rw (e, at) out, rw at done)
]

pub mark_bootstrap-Marks :
    (regions : List MemoryRegion) (bound : ℕ) (this : GlobalFrameAllocator) (block : ℕ)
    (sizes : List ℕ)
    → ((i : ℕ) → i < bound → Covers this i)
    → Fits regions bound block sizes
    → (t : GlobalFrameAllocator) × (mark_bootstrap regions this block sizes ≡ ret t)
      × Marks this t (handed_out regions block sizes)
unfolding mark_bootstrap
mark_bootstrap-Marks regions bound this block [] c f = (this, refl, Marks-none this)
mark_bootstrap-Marks regions bound this block (size ∷ sizes) c f =
    let (u, first, head) = mark_block regions bound this block size c f.0 in
    let (t, out, rest) =
      mark_bootstrap-Marks regions bound u (suc block) sizes (Covers-Marks bound head c) f.1 in
    (
      t,
      rw first out,
      Marks-trans (handed_out regions block (size ∷ sizes))
          (λ i.
            or_comm (in_region (get_elem? regions block) size i)
              (handed_out regions (suc block) sizes i))
          head rest,
    )

abbrev pub AllBelow : ℕ → List MemoryRegion → Type 0
AllBelow bound [] = Unit
AllBelow bound (r ∷ rs) = (r.range.end_frame_number ≤ bound) × AllBelow bound rs

pub mark_regions-Marks :
    (this : GlobalFrameAllocator) (low bound : ℕ) (rs : List MemoryRegion)
    → ((i : ℕ) → i < bound → Covers this i)
    → IsSorted low rs
    → AllBelow bound rs
    → (t : GlobalFrameAllocator) × (mark_regions this rs ≡ ret t) × Marks this t (set_aside rs)
unfolding mark_regions
mark_regions-Marks this low bound [] c s b = (this, refl, Marks-none this)
mark_regions-Marks this low bound (r ∷ rs) c s b =
    let start = r.range.start_frame_number in
    let end = r.range.end_frame_number in
    elim (Bool-cases (is_skipped r.region_type)) [
      | inl e ↦
          let (t, out, rest) = mark_regions-Marks this end bound rs c s.3 b.1 in
          (
            t,
            rw e out,
            Marks-trans _ (λ i. rw e (or_comm false (set_aside rs i))) (Marks-none this) rest,
          )
      | inr e ↦
          let (u, first, head) =
            mark_each-Marks this (end - start) start (λ i p. c i (omega arith)) in
          let (t, out, rest) =
            mark_regions-Marks u end bound rs (Covers-Marks bound head c) s.3 b.1 in
          (t, rw (e, first) out, Marks-trans _ (λ i. rw e (ground arith)) head rest)
    ]
