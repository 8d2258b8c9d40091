-- ===== src/Memory/Init/Bitmaps.antt =====
-- The calls by which `GlobalFrameAllocator::init` of src/memory/frame_allocator/mod.rs allocates and
-- maps its bitmap.
use capucho_os.Base.{
  ℕ, zero, suc, ◌+◌, ◌*◌, ◌^◌, ◌≡◌, ◌≤◌, ◌⊎◌, inl, inr, refl, List, [], ◌∷◌, ◌++◌, Option, some,
  Run, Panic, ret, panics, message, length, arith, ◌>>=◌,
}
use capucho_os.Memory.External.{
  Crates, Mapper, MapResult, ok, err, Calls, no_call, call, failed_call, CallsOnly, present,
  writable,
}
use capucho_os.Memory.Region.{MemoryRegion, IsSorted, last_end}
use capucho_os.Memory.Bootstrap.{
  BootStrapAllocator, boot_allocate_frame, expect_mapped, allocate_bitmap_frame,
}
use capucho_os.Memory.Bootstrap.Invariant.{
  IsBoot, boot_allocate_frame-IsBoot, Calls-IsBoot, boot_allocate_frame-ne-panics,
}
use capucho_os.Memory.Init.{bitmap_start, bitmap_frames, allocate_bitmaps}

-- The two panics by which `init` gives up: no frame is left, or the mapper refuses.
abbrev pub GivesUp : Panic → Type 0
GivesUp p = (p ≡ message "Failed to allocate frame") ⊎ (p ≡ message "Failed to map")

Calls-trans :
    {A : Type 0} {allocate : A → Run (Option ℕ × A)} {a : A} {fs : List ℕ} {b : A} {gs : List ℕ}
    {c : A}
    → Calls allocate a fs b
    → Calls allocate b gs c
    → Calls allocate a (gs ++ fs) c
Calls-trans h no_call = h
Calls-trans h (call f k e) = call f (Calls-trans h k) e
Calls-trans h (failed_call k e) = failed_call (Calls-trans h k) e

last_end-le :
    (low end : ℕ) (rs : List MemoryRegion) → IsSorted low rs → last_end rs ≡ some end → end ≤ 2 ^ 40
last_end-le low end [] s e = absurd (cc)
last_end-le low end (r ∷ []) s e = ground arith
last_end-le low end (r ∷ q ∷ rs) s e = last_end-le r.range.end_frame_number end (q ∷ rs) s.3 e

pub few_bitmaps :
    (low end : ℕ) (rs : List MemoryRegion)
    → IsSorted low rs
    → last_end rs ≡ some end
    → 0 + bitmap_frames end ≤ 2 ^ 26
unfolding bitmap_frames
few_bitmaps low end rs s e = omega (arith, last_end-le low end rs s e)

module _ (crates : Crates) (mapper : Mapper) where
  -- `MapsBitmap n i s table fs u after`: from the bootstrap allocator `s` the `n` pages of the bitmap
  -- from number `i` on are mapped in turn, each present and writable and to the frame that was just
  -- handed out for it; `fs` are all frames that were handed out, latest first.
  pub data MapsBitmap
      : ℕ
        → ℕ
        → BootStrapAllocator
        → mapper.Table
        → List ℕ
        → BootStrapAllocator
        → mapper.Table
        → Type 0 where
    all_pages :
        {i : ℕ} {s : BootStrapAllocator} {table : mapper.Table} → MapsBitmap 0 i s table [] s table
    next_page :
        {n i f : ℕ} {s t u v : BootStrapAllocator} {table table' after : mapper.Table}
        {gs fs : List ℕ}
        → boot_allocate_frame crates s ≡ ret (some f, t)
        → mapper.map_to _
            (boot_allocate_frame crates)
            (bitmap_start + i * 0x1000)
            f
            (present ∷ writable ∷ [])
            t
            table
          ≡ ret (ok tt, u, table')
        → Calls (boot_allocate_frame crates) t gs u
        → MapsBitmap n (suc i) u table' fs v after
        → MapsBitmap (suc n) i s table (fs ++ (gs ++ f ∷ [])) v after

  pub MapsBitmap-Calls :
      {n i : ℕ} {s : BootStrapAllocator} {table : mapper.Table} {fs : List ℕ}
      {u : BootStrapAllocator} {after : mapper.Table}
      → MapsBitmap n i s table fs u after
      → Calls (boot_allocate_frame crates) s fs u
  MapsBitmap-Calls all_pages = no_call
  MapsBitmap-Calls (next_page {f = f} e em k rest) =
      Calls-trans (Calls-trans (call f no_call e) k) (MapsBitmap-Calls rest)

  -- The outcome of the loop that maps the bitmap.
  abbrev pub Maps :
      ℕ → ℕ → BootStrapAllocator → mapper.Table → Run (BootStrapAllocator × mapper.Table) → Type 0
  Maps n i s table (panics p) = GivesUp p
  Maps n i s table (ret r) = (fs : List ℕ) × MapsBitmap n i s table fs r.0 r.1

  abbrev AllocatedTable : Type 0
  AllocatedTable = MapResult (Unit {0}) mapper.MapToError × BootStrapAllocator × mapper.Table

module _ (crates : Crates) (mapper : Mapper) (map : List MemoryRegion) (sorted : IsSorted 0 map)
    (few : length map ≤ 64) where
  prepend :
      (n i : ℕ) {f : ℕ} (s : BootStrapAllocator) {t u : BootStrapAllocator} (table : mapper.Table)
      {table' : mapper.Table} {gs : List ℕ} (out : Run (BootStrapAllocator × mapper.Table))
      → boot_allocate_frame crates s ≡ ret (some f, t)
      → mapper.map_to _
          (boot_allocate_frame crates)
          (bitmap_start + i * 0x1000)
          f
          (present ∷ writable ∷ [])
          t
          table
        ≡ ret (ok tt, u, table')
      → Calls (boot_allocate_frame crates) t gs u
      → Maps crates mapper n (suc i) u table' out
      → Maps crates mapper (suc n) i s table out
  prepend n i s table (panics p) e em k h = h
  prepend n i s table (ret r) e em k (fs, h) = (_, next_page e em k h)

  -- The round after the frame `f` was handed out, with the rest of the loop.
  then_bitmaps :
      {hs : List ℕ} {f : ℕ} {t : BootStrapAllocator} (n i : ℕ) (s : BootStrapAllocator)
      (table : mapper.Table) (out : Run (AllocatedTable crates mapper))
      → boot_allocate_frame crates s ≡ ret (some f, t)
      → mapper.map_to _
          (boot_allocate_frame crates)
          (bitmap_start + i * 0x1000)
          f
          (present ∷ writable ∷ [])
          t
          table
        ≡ out
      → IsBoot map hs t
      → CallsOnly (boot_allocate_frame crates) t out
      → ((gs : List ℕ) (u : BootStrapAllocator) (table' : mapper.Table)
          → IsBoot map gs u
          → Maps crates mapper n
              (suc i)
              u
              table'
              (allocate_bitmaps crates mapper n (suc i) u table'))
      → Maps crates mapper (suc n) i s table (
          (out >>= expect_mapped crates mapper) >>= λ r.
          allocate_bitmaps crates mapper n (suc i) r.0 r.1)
  unfolding expect_mapped
  then_bitmaps n i s table (panics p) e em h (gs, b, k, stop) rest = absurd (
      boot_allocate_frame-ne-panics crates map sorted few b p
        (Calls-IsBoot crates map sorted few h k) stop)
  then_bitmaps n i s table (ret (ok _, u, table')) e em h (gs, k) rest =
      prepend n i s table _ e em k (rest _ u table' (Calls-IsBoot crates map sorted few h k))
  then_bitmaps n i s table (ret (err _, u, table')) e em h (gs, k) rest = inr refl

  pub allocate_bitmaps-Maps :
      {fs : List ℕ} (n i : ℕ) (s : BootStrapAllocator) (table : mapper.Table)
      → IsBoot map fs s
      → i + n ≤ 2 ^ 26
      → Maps crates mapper n i s table (allocate_bitmaps crates mapper n i s table)
  unfolding allocate_bitmaps allocate_bitmap_frame
  allocate_bitmaps-Maps zero i s table h le = ([], all_pages)
  allocate_bitmaps-Maps (suc n) i s table h le =
      elim (boot_allocate_frame-IsBoot crates map sorted few s h) [
        | inl e ↦ rw e (inl refl)
        | inr (f, t, e, boot) ↦
            rw (e, crates.virt_addr_new_lem (bitmap_start + i * 0x1000) (omega arith))
              (then_bitmaps n i s table _ e refl boot
                (mapper.map_to_calls _ (boot_allocate_frame crates) (bitmap_start + i * 0x1000) f
                  (present ∷ writable ∷ []) t table)
                (λ gs u table' k. allocate_bitmaps-Maps n (suc i) u table' k (omega arith)))
      ]
