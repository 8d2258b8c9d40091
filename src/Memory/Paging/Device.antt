-- ===== src/Memory/Paging/Device.antt =====
-- `mmap_dev` of src/memory/mod.rs on an allocator with a history.
use capucho_os.Base.{
  ret-injective, ℕ, ◌*◌, ◌/◌, ◌^◌, ◌≡◌, ◌<◌, refl, Bool, not, List, ◌∷◌, Option, none, some, Run,
  ret, panics, Panic, message, length, arith, subst, sym, ◌∙◌,
}
use capucho_os.Memory.External.{
  Crates, Mapper, MapResult, ok, err, Flag, present, no_cache, write_through, Calls, no_call, call,
  failed_call, CallsOnly,
}
use capucho_os.Memory.Region.{MemoryRegionType}
use capucho_os.Memory.Frames.Bitmap.{GlobalFrameAllocator, allocate_frame, frame_in_use}
use capucho_os.Memory.Frames.Marks.{Covers, used, is_used_lem}
use capucho_os.Memory.Frames.RegionOf.{get_frame_ty}
use capucho_os.Memory.Frames.Allocate.{allocate_frame-Allocates, IsValid, Flips-IsValid}
use capucho_os.Memory.Frames.History.{IsFair}
use capucho_os.Memory.Paging.{UnmapGuard, PagingContext, extra_flags, guard_mapped, mmap_dev}
use capucho_os.Memory.Paging.Grown.{Grown, CallsOnly-Grown}

abbrev pub wrong_frame : Panic
wrong_frame = message "Tried to mmap a device on a wrong frame"

module _ (crates : Crates) where
  -- Calls of the allocator keep the size of its bitmap.
  Calls-length :
      {t u : GlobalFrameAllocator} {fs : List ℕ}
      → IsValid t
      → Calls (allocate_frame crates) t fs u
      → IsValid u × (length u.bitmap ≡ length t.bitmap)
  Calls-length v no_call = (v, refl)
  Calls-length {u = u} v (call {b = b} f c e) =
      let (v', same) = Calls-length v c in
      let out = rw e at (allocate_frame-Allocates crates b v') in
      (Flips-IsValid out.5 v', out.5.same_length ∙ same)
  Calls-length {u = u} v (failed_call {b = b} c e) =
      let (v', same) = Calls-length v c in
      let out = rw e at (allocate_frame-Allocates crates b v') in rw out.0 (v', same)

  module _ (mapper : Mapper) (s : GlobalFrameAllocator) (live : List ℕ)
      (ctx : PagingContext crates mapper) (i : ℕ) (acpi : Bool) where
    -- The outcomes of mapping frame `i`: the only panic is that of a frame whose type a device must
    -- not have; otherwise every frame that was handed out still is, and the guard has the page at the
    -- address of the frame, with its flag set just if the frame is not in use, and the
    -- bitmap still covers the frame.
    abbrev pub Devices :
        Run (MapResult UnmapGuard mapper.MapToError × PagingContext crates mapper) → Type 0
    Devices (panics p) =
        (ty : MemoryRegionType) × (get_frame_ty crates ctx.allocator (i * 4096) ≡ some ty)
        × (extra_flags ty acpi ≡ none)
        × (p ≡ wrong_frame)
    Devices (ret (err e, after)) = Grown s live 0 after.allocator
    Devices (ret (ok guard, after)) =
        Grown s live 0 after.allocator
        × (guard.page ≡ i * 4096)
        × (guard.unmap_frame ≡ not (used after.allocator i))
        × Covers after.allocator i

    module _ (fair : IsFair s live ctx.allocator) (covers : Covers ctx.allocator i)
        (low : i * 4096 < 2 ^ 47) where
      unchanged : Grown s live 0 ctx.allocator
      unchanged = record { now = live; fair = fair; kept = λ j m. m; more = omega arith }

      guarded :
          (r : MapResult (Unit {0}) mapper.MapToError × GlobalFrameAllocator × mapper.Table)
          → Grown s live 0 r.1
          → Covers r.1 i
          → Devices (guard_mapped crates mapper (i * 4096) (i * 4096) r)
      unfolding guard_mapped frame_in_use
      guarded (err e, a, table) g c = g
      guarded (ok done, a, table) g c =
          let idx : i * 4096 / 4096 ≡ i = omega arith in
          rw (idx, is_used_lem a i c) (g, refl, refl, c)

      calls_cover :
          (m : Run (MapResult (Unit {0}) mapper.MapToError × GlobalFrameAllocator × mapper.Table))
          (r : MapResult (Unit {0}) mapper.MapToError × GlobalFrameAllocator × mapper.Table)
          → CallsOnly (allocate_frame crates) ctx.allocator m
          → m ≡ ret r
          → Covers r.1 i
      calls_cover (panics p) r c e = cc
      calls_cover (ret q) r (fs, c) e =
          let same : length q.1.bitmap ≡ length ctx.allocator.bitmap =
            (Calls-length fair.valid c).1 in
          let eq : q ≡ r = ret-injective e in subst (λ x. Covers x.1 i) eq (rw same covers)

      allowed :
          (extra : List Flag) (ty : MemoryRegionType)
          → get_frame_ty crates ctx.allocator (i * 4096) ≡ some ty
          → extra_flags ty acpi ≡ some extra
          → Devices (mmap_dev crates mapper ctx (i * 4096) acpi)
      unfolding mmap_dev
      allowed extra ty e1 e2 =
          let flags = present ∷ no_cache ∷ write_through ∷ extra in
          let used_only =
            mapper.identity_map_calls _ (allocate_frame crates) (i * 4096) flags ctx.allocator
              ctx.table in
          let (r, run, g) = CallsOnly-Grown crates s _ unchanged used_only in
          let idx : i * 4096 / 4096 ≡ i = omega arith in
          let plan : guard_mapped crates mapper (i * 4096) (i * 4096) r
              ≡ mmap_dev crates mapper ctx (i * 4096) acpi =
            sym (
              rw (
                mmap_dev,
                e1,
                e2,
                crates.virt_addr_new_lem (i * 4096) low,
                run,
                crates.page_containing_lem (i * 4096),
                idx,
              )) in
          subst Devices plan (guarded r g (calls_cover _ r used_only run))

      by_flags :
          (ty : MemoryRegionType) (o : Option (List Flag))
          → get_frame_ty crates ctx.allocator (i * 4096) ≡ some ty
          → extra_flags ty acpi ≡ o
          → Devices (mmap_dev crates mapper ctx (i * 4096) acpi)
      unfolding mmap_dev
      by_flags ty none e1 e2 =
          let plan : panics wrong_frame ≡ mmap_dev crates mapper ctx (i * 4096) acpi =
            sym (rw (mmap_dev, e1, e2)) in
          subst Devices plan (ty, e1, e2, refl)
      by_flags ty (some extra) e1 e2 = allowed extra ty e1 e2

      by_type :
          (o : Option MemoryRegionType)
          → get_frame_ty crates ctx.allocator (i * 4096) ≡ o
          → Devices (mmap_dev crates mapper ctx (i * 4096) acpi)
      unfolding mmap_dev
      by_type none e =
          let plan : ret (err mapper.frame_allocation_failed, ctx)
              ≡ mmap_dev crates mapper ctx (i * 4096) acpi =
            sym (rw (mmap_dev, e)) in
          subst Devices plan unchanged
      by_type (some ty) e = by_flags ty (extra_flags ty acpi) e refl

      -- On an allocator with a history, at a frame below 2 ^ 47 that the bitmap covers, these are the
      -- outcomes of `mmap_dev`.
      pub mmap_dev-Devices : Devices (mmap_dev crates mapper ctx (i * 4096) acpi)
      mmap_dev-Devices = by_type (get_frame_ty crates ctx.allocator (i * 4096)) refl
