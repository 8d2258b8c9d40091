-- ===== src/Memory/Init/Outcome.antt =====
-- What `GlobalFrameAllocator::init` of src/memory/frame_allocator/mod.rs returns.
use mathlib.Core.List.{append-nil}
use capucho_os.Base.{
  ◌*◌, subst, ℕ, ◌+◌, ◌/◌, ◌≡◌, ◌≤◌, ◌<◌, inl, inr, refl, Bool, true, false, List, [], ◌∷◌, some,
  Run, ret, panics, length, ◌||◌, arith, sym, ◌∙◌, ◌>>=◌,
}
use capucho_os.Memory.External.{Crates, Mapper}
use capucho_os.Memory.Region.{MemoryRegion, IsSorted, last_end}
use capucho_os.Memory.Region.Laws.{Member, IsUsableFrame}
use capucho_os.Memory.Bootstrap.{BootStrapAllocator}
use capucho_os.Memory.Bootstrap.Invariant.{IsTaken, IsBoot, Calls-IsBoot}
use capucho_os.Memory.Frames.Bitmap.{GlobalFrameAllocator}
use capucho_os.Memory.Frames.Marks.{Covers, used}
use capucho_os.Memory.Frames.Allocate.{IsValid}
use capucho_os.Memory.Init.{
  bitmap_frames, mapped_words, raw_allocator, new_bootstrap, init, mark_bootstrap, mark_regions,
}
use capucho_os.Memory.Init.Marking.{
  handed_out, set_aside, Marks, AllBelow, mark_bootstrap-Marks, mark_regions-Marks,
}
use capucho_os.Memory.Init.Laws.{
  AllBelow-last, Fits-taken, handed_out-true, length-slice, new_bootstrap-IsBoot,
}
use capucho_os.Memory.Init.Bitmaps.{
  GivesUp, Maps, MapsBitmap, MapsBitmap-Calls, few_bitmaps, allocate_bitmaps-Maps,
}

-- The pages of the bitmap have the word of every frame of the map.
bitmap_frames_words : (end i : ℕ) → i < end → i / 32 < bitmap_frames end * 1024
unfolding bitmap_frames
bitmap_frames_words end i p = omega arith

module _ (crates : Crates) (mapper : Mapper) (map : List MemoryRegion) where
  -- What `init` promises: all pages of the bitmap were mapped by the bootstrap allocator `boot` that
  -- handed out `handed` for it; the map is kept, the search starts at frame 0, and the bitmap is what
  -- the memory held, with the frames that `boot` handed out and those set aside marked. The words for
  -- the frames of the map lie in the pages that were mapped.
  pub record IsReady (raw : ℕ → ℕ) (end : ℕ) (table after : mapper.Table)
      (this : GlobalFrameAllocator) : Type 0 where
    pub valid : IsValid this
    pub same_map : this.memory_map ≡ map
    pub from_zero : this.next_usable ≡ 0
    pub handed : List ℕ
    pub boot : BootStrapAllocator
    pub pages :
        MapsBitmap crates mapper (bitmap_frames end) 0 (new_bootstrap map) table handed boot after
    pub words_mapped : (i : ℕ) → i < end → i / 32 < bitmap_frames end * 1024
    pub handed_used : (f : ℕ) → Member f handed → used this (f / 4096) ≡ true
    pub aside_used : (i : ℕ) → set_aside map i ≡ true → used this i ≡ true
    pub bits :
        (i : ℕ)
        → used this i ≡ (
            set_aside map i || (handed_out map 0 boot.used i || used (raw_allocator raw map end) i))

  -- The outcomes of `init`.
  abbrev pub Inits : (ℕ → ℕ) → ℕ → mapper.Table → Run (GlobalFrameAllocator × mapper.Table) → Type 0
  Inits raw end table (panics p) = GivesUp p
  Inits raw end table (ret r) = IsReady raw end table r.1 r.0

module _ (crates : Crates) (mapper : Mapper) (map : List MemoryRegion) (sorted : IsSorted 0 map)
    (few : length map ≤ 64) where
  IsUsableFrame-lt_end :
      (bound i : ℕ) (rs : List MemoryRegion) → AllBelow bound rs → IsUsableFrame rs i → i < bound
  IsUsableFrame-lt_end bound i [] b m = absurd m
  IsUsableFrame-lt_end bound i (r ∷ rs) b (inl m) = omega arith
  IsUsableFrame-lt_end bound i (r ∷ rs) b (inr m) = IsUsableFrame-lt_end bound i rs b.1 m

  raw-Covers : (raw : ℕ → ℕ) (end : ℕ) (i : ℕ) → i < end → Covers (raw_allocator raw map end) i
  unfolding raw_allocator mapped_words
  raw-Covers raw end i h =
      rw (length-slice raw (mapped_words end) 0) (omega (arith, bitmap_frames_words end i h))

  or_middle : (a b c : Bool) → b ≡ true → (a || (b || c)) ≡ true
  or_middle true b c h = refl
  or_middle false b c h = rw h

  ready :
      (raw : ℕ → ℕ) (end : ℕ) {fs : List ℕ} (boot : BootStrapAllocator) (table after : mapper.Table)
      (t u : GlobalFrameAllocator)
      → last_end map ≡ some end
      → IsBoot map fs boot
      → MapsBitmap crates mapper (bitmap_frames end) 0 (new_bootstrap map) table fs boot after
      → Marks (raw_allocator raw map end) t (handed_out map 0 boot.used)
      → Marks t u (set_aside map)
      → IsReady crates mapper map raw end table after u
  ready raw end {fs} boot table after t u e h c by_boot by_region = record {
    valid = record {
      sorted = rw kept sorted;
      covers = λ i m.
          rw long (raw-Covers raw end i (IsUsableFrame-lt_end end i map below (rw kept at m)));
    };
    same_map = kept;
    from_zero = by_region.same_next ∙ by_boot.same_next ∙ unfold raw_allocator in refl;
    handed = fs;
    boot = boot;
    pages = c;
    words_mapped = bitmap_frames_words end;
    handed_used = λ f m. bits (f / 4096) ∙ or_middle _ _ _ (handed f (h.logged f m));
    aside_used = λ i a. by_region.bits i ∙ rw a;
    bits = bits;
  }
    where
      below : AllBelow end map
      below = AllBelow-last 0 end map sorted e

      kept : u.memory_map ≡ map
      kept = by_region.same_map ∙ by_boot.same_map ∙ unfold raw_allocator in refl

      long : length u.bitmap ≡ length (raw_allocator raw map end).bitmap
      long = by_region.same_length ∙ by_boot.same_length

      bits :
          (i : ℕ)
          → used u i ≡ (
              set_aside map i
              || (handed_out map 0 boot.used i || used (raw_allocator raw map end) i))
      bits i = by_region.bits i ∙ rw (by_boot.bits i)

      handed : (f : ℕ) → IsTaken map boot.next f → handed_out map 0 boot.used (f / 4096) ≡ true
      handed f tk =
          let at : 0 + tk.block ≡ tk.block = omega arith in
          handed_out-true map 0 tk.block boot.used (f / 4096) tk.region (rw at tk.at)
            (omega (arith, tk.from_start)) (omega (arith, tk.below_taken, h.counts tk.block))

  -- The marking of `init` after the bootstrap allocator is done.
  mark_all :
      (raw : ℕ → ℕ) (end : ℕ) {fs : List ℕ} (boot : BootStrapAllocator) (table after : mapper.Table)
      → last_end map ≡ some end
      → IsBoot map fs boot
      → MapsBitmap crates mapper (bitmap_frames end) 0 (new_bootstrap map) table fs boot after
      → (t u : GlobalFrameAllocator) × (mark_bootstrap map (raw_allocator raw map end) 0 boot.used
          ≡ ret t)
        × (mark_regions t map ≡ ret u)
        × IsReady crates mapper map raw end table after u
  mark_all raw end {fs} boot table after e h c =
      let below = AllBelow-last 0 end map sorted e in
      let fits =
        Fits-taken end boot.next 0 map boot.used sorted below
          (λ k. let at : 0 + k ≡ k = omega arith in rw at (h.counts k)) in
      let (t, first, by_boot) =
        mark_bootstrap-Marks map end (raw_allocator raw map end) 0 boot.used (raw-Covers raw end)
          fits in
      let (u, second, by_region) =
        mark_regions-Marks t 0 end map
          (λ i p. subst (λ n. i / 32 < n) (sym by_boot.same_length) (raw-Covers raw end i p)) sorted
          below in
      (t, u, first, second, ready raw end boot table after t u e h c by_boot by_region)

  then_mark :
      (raw : ℕ → ℕ) (end : ℕ) (table : mapper.Table) (out : Run (BootStrapAllocator × mapper.Table))
      → last_end map ≡ some end
      → Maps crates mapper (bitmap_frames end) 0 (new_bootstrap map) table out
      → Inits crates mapper map raw end table (
          out >>= λ r. mark_bootstrap map (raw_allocator raw map end) 0 r.0.used >>= λ t.
          mark_regions t map >>= λ u. ret (u, r.1))
  then_mark raw end table (panics p) e g = g
  then_mark raw end table (ret r) e (fs, c) =
      let calls = MapsBitmap-Calls crates mapper c in
      let boot = Calls-IsBoot crates map sorted few (new_bootstrap-IsBoot map) calls in
      let (t, u, first, second, done) =
        mark_all raw end r.0 table r.1 e (rw append-nil at boot) c in
      rw (first, second) done

  -- On a sorted map of 1 to 64 regions, which ends with the frame before `end`, `init` either gives
  -- up, by one of its two `expect`s, or maps all pages of the bitmap, each to a frame that the
  -- bootstrap allocator has just handed out, and returns a valid allocator; no index is out of bounds
  -- or past the mapped pages, and no address invalid. Every frame that the bootstrap allocator handed out in this is marked, and
  -- so is every frame of a region that is not `Usable`, `Reserved`, `AcpiReclaimable` or `FrameZero`;
  -- the other bits are those that the memory of the bitmap held before. The words of the bitmap for
  -- the frames below `end` lie in the pages that were mapped.
  pub init-Inits :
      (raw : ℕ → ℕ) (end : ℕ) (table : mapper.Table)
      → last_end map ≡ some end
      → Inits crates mapper map raw end table (init crates mapper raw map table)
  unfolding init
  init-Inits raw end table e = rw e (
      then_mark raw end table _ e (
        allocate_bitmaps-Maps crates mapper map sorted few (bitmap_frames end) 0 (new_bootstrap map)
          table (new_bootstrap-IsBoot map) (few_bitmaps 0 end map sorted e)))
