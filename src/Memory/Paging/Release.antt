-- ===== src/Memory/Paging/Release.antt =====
-- `unmap` of src/memory/mod.rs after `mmap_dev`.
use capucho_os.Base.{
  ℕ, ◌*◌, ◌^◌, ◌≡◌, ◌<◌, refl, Bool, true, false, not, List, ret, ◌==◌, arith, Bool-cases, inl, inr,
  sym, ◌∙◌, ap, subst,
}
use capucho_os.Memory.External.{Crates, Mapper, ok}
use capucho_os.Memory.Frames.Bitmap.{GlobalFrameAllocator}
use capucho_os.Memory.Frames.Marks.{Covers, used}
use capucho_os.Memory.Frames.Allocate.{Flips, Flips-IsValid, deallocate_frame_lem}
use capucho_os.Memory.Frames.History.{IsFair}
use capucho_os.Memory.Paging.{UnmapGuard, PagingContext, mmap_dev, unmap}
use capucho_os.Memory.Paging.Grown.{Grown}
use capucho_os.Memory.Paging.Device.{Devices, mmap_dev-Devices}

-- A change of a bit that is clear to clear changes no bit.
unchanged_bits :
    {t u : GlobalFrameAllocator} {i : ℕ} (j : ℕ)
    → used t i ≡ false
    → Flips t u i false
    → used u j ≡ used t j
unchanged_bits {t} {u} {i} j clear f = elim (Bool-cases (i == j)) [
  | inl e ↦ let eq : i ≡ j = ground arith in f.bits j ∙ rw e (sym clear ∙ ap (used t) eq)
  | inr e ↦ f.bits j ∙ rw e
]

module _ (s : GlobalFrameAllocator) where
  kept-IsFair :
      {now : List ℕ} {t u : GlobalFrameAllocator} {i : ℕ}
      → used t i ≡ false
      → u.next_usable ≡ t.next_usable
      → Flips t u i false
      → IsFair s now t
      → IsFair s now u
  kept-IsFair clear next f h = record {
    valid = Flips-IsValid f h.valid;
    same_map = f.same_map ∙ h.same_map;
    grows = omega (arith, next, h.grows);
    distinct = h.distinct;
    marked = λ j m. ((unchanged_bits j clear f ∙ (h.marked j m).0), (h.marked j m).1);
  }

  -- The frames that are handed out and the bits are those of `t`.
  pub record Keeps (live : List ℕ) (t u : GlobalFrameAllocator) : Type 0 where
    pub grown : Grown s live 0 u
    pub bits : (j : ℕ) → used u j ≡ used t j

  module _ (crates : Crates) (mapper : Mapper) (live : List ℕ) where
    -- Both cases of the guard's flag.
    release :
        (i : ℕ) (guard : UnmapGuard) (after : PagingContext crates mapper) (table : mapper.Table)
        → Grown s live 0 after.allocator
        → Covers after.allocator i
        → guard.unmap_frame ≡ not (used after.allocator i)
        → mapper.unmap guard.page after.table ≡ ok (i * 4096, table)
        → (last : PagingContext crates mapper) × (unmap crates mapper guard after
            ≡ ret (ok tt, last))
          × Keeps live after.allocator last.allocator
    unfolding unmap
    release i guard after table g c flag e = elim (Bool-cases (used after.allocator i)) [
      | inl set ↦
          let keep : guard.unmap_frame ≡ false = flag ∙ rw set in
          (
            record { table = table; allocator = after.allocator },
            rw (unmap, e, keep),
            record { grown = g; bits = λ j. refl },
          )
      | inr clear ↦
          let free : guard.unmap_frame ≡ true = flag ∙ rw clear in
          let (t, run, next, f) = deallocate_frame_lem after.allocator i c in
          (
            record { table = table; allocator = t },
            rw (unmap, e, free, run),
            record {
              grown = record {
                now = g.now;
                fair = kept-IsFair clear next f g.fair;
                kept = g.kept;
                more = g.more;
              };
              bits = λ j. unchanged_bits j clear f;
            },
          )
    ]

    -- From an allocator with a history, for a frame below 2 ^ 47 that the bitmap covers: when `mmap_dev`
    -- gives a guard, and the mapper finds the frame at the page of the guard, `unmap` of the guard does
    -- not panic and succeeds, no frame that was handed out is given back, and no bit changes.
    pub unmap-mmap_dev :
        (ctx after : PagingContext crates mapper) (i : ℕ) (acpi : Bool) (guard : UnmapGuard)
        (table : mapper.Table)
        → IsFair s live ctx.allocator
        → Covers ctx.allocator i
        → i * 4096 < 2 ^ 47
        → mmap_dev crates mapper ctx (i * 4096) acpi ≡ ret (ok guard, after)
        → mapper.unmap guard.page after.table ≡ ok (i * 4096, table)
        → (last : PagingContext crates mapper) × (unmap crates mapper guard after
            ≡ ret (ok tt, last))
          × Keeps live after.allocator last.allocator
    unmap-mmap_dev ctx after i acpi guard table fair covers low e found =
        let (g, page, flag, c) =
          subst (Devices crates mapper s live ctx i acpi) e
            (mmap_dev-Devices crates mapper s live ctx i acpi fair covers low) in
        release i guard after table g c flag found
