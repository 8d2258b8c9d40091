-- ===== src/Memory/Paging/Range.antt =====
-- `map_range` of src/memory/mod.rs on a valid frame allocator.
use capucho_os.Base.{
  ℕ, ◌/◌, ◌≡◌, ◌<◌, refl, List, [], ◌∷◌, Option, none, some, Run, ret, panics, length, arith, inl,
  inr, subst,
}
use capucho_os.Memory.External.{
  Crates, Mapper, MapResult, ok, err, Flag, Calls, no_call, call, failed_call, CallsOnly,
}
use capucho_os.Memory.Frames.Bitmap.{GlobalFrameAllocator, allocate_frame}
use capucho_os.Memory.Frames.Allocate.{Allocates, allocate_frame-Allocates}
use capucho_os.Memory.Frames.History.{IsFair, Distinct, allocate-IsFair}
use capucho_os.Memory.Region.Laws.{Member}
use capucho_os.Memory.Paging.{PagingContext, map_range}

-- The frames of the addresses `gs`, before those of `live`.
abbrev pub taken : List ℕ → List ℕ → List ℕ
taken [] live = live
taken (g ∷ gs) live = g / 4096 ∷ taken gs live

Member-taken : (gs live : List ℕ) (i : ℕ) → Member i live → Member i (taken gs live)
Member-taken [] live i m = m
Member-taken (g ∷ gs) live i m = inr (Member-taken gs live i m)

module _ (crates : Crates) (mapper : Mapper) where
  abbrev Ctx : Type 0
  Ctx = PagingContext crates mapper

  abbrev Result : Type 0
  Result = MapResult (Unit {0}) mapper.MapToError

  -- `Maps flags range live ctx r frames now after`: from the context `ctx`, where the frames of `live`
  -- are handed out, the pages of `range` are mapped in turn with these flags, each to the frame that
  -- was just handed out for it, while the mapper may take frames for its tables; `frames` are the
  -- frames that the mapped pages got and `now` all that are handed out then. The first error is the
  -- result.
  pub data Maps (flags : List Flag)
      : List ℕ → List ℕ → Ctx → Result → List ℕ → List ℕ → Ctx → Type 0 where
    all_mapped : {live : List ℕ} {ctx : Ctx} → Maps flags [] live ctx (ok tt) [] live ctx
    no_frame :
        {page : ℕ} {range live : List ℕ} {ctx : Ctx} {u : GlobalFrameAllocator}
        → allocate_frame crates ctx.allocator ≡ ret (none, u)
        → Maps flags
            (page ∷ range)
            live
            ctx
            (err mapper.frame_allocation_failed)
            []
            live
            (record { table = ctx.table; allocator = u })
    refused :
        {page a : ℕ} {range live gs : List ℕ} {ctx : Ctx} {u v : GlobalFrameAllocator}
        {table : mapper.Table} {e : mapper.MapToError}
        → allocate_frame crates ctx.allocator ≡ ret (some a, u)
        → mapper.map_to _ (allocate_frame crates) page a flags u ctx.table ≡ ret (err e, v, table)
        → Calls (allocate_frame crates) u gs v
        → Maps flags
            (page ∷ range)
            live
            ctx
            (err e)
            []
            (taken gs (a / 4096 ∷ live))
            (record { table = table; allocator = v })
    page_mapped :
        {page a : ℕ} {range live gs frames now : List ℕ} {ctx after : Ctx}
        {u v : GlobalFrameAllocator} {table : mapper.Table} {r : Result}
        → allocate_frame crates ctx.allocator ≡ ret (some a, u)
        → mapper.map_to _ (allocate_frame crates) page a flags u ctx.table ≡ ret (ok tt, v, table)
        → Calls (allocate_frame crates) u gs v
        → Maps flags range
            (taken gs (a / 4096 ∷ live))
            (record { table = table; allocator = v })
            r
            frames
            now
            after
        → Maps flags (page ∷ range) live ctx r (a / 4096 ∷ frames) now after

  -- Every page has a frame exactly if there is no error.
  abbrev pub Complete : Result → List ℕ → List ℕ → Type 0
  Complete (ok done) range frames = length frames ≡ length range
  Complete (err e) range frames = length frames < length range

  module _ (s : GlobalFrameAllocator) where
    -- What the run keeps of a history from `s`: no frame is handed out twice, those of `live` still are,
    -- and the frames of the pages are handed out and differ from each other and from those of `live`.
    pub record Mapping (flags : List Flag) (range live : List ℕ) (ctx : Ctx) (r : Result)
        (after : Ctx) : Type 0 where
      pub frames : List ℕ
      pub now : List ℕ
      pub run : Maps flags range live ctx r frames now after
      pub complete : Complete r range frames
      pub fair : IsFair s now after.allocator
      pub kept : (i : ℕ) → Member i live → Member i now
      pub fresh : (i : ℕ) → Member i frames → Member i now × (¬ Member i live)
      pub apart : Distinct frames

    abbrev pub Mapped : List Flag → List ℕ → List ℕ → Ctx → Run (Result × Ctx) → Type 0
    Mapped flags range live ctx m =
        (r : Result) × (after : Ctx) × (m ≡ ret (r, after)) × Mapping flags range live ctx r after

    failed-IsFair :
        {live : List ℕ} {t u : GlobalFrameAllocator}
        → IsFair s live t
        → allocate_frame crates t ≡ ret (none, u)
        → IsFair s live u
    failed-IsFair {live} {t} {u} f e =
        let out = rw e at (allocate_frame-Allocates crates t f.valid) in rw out.0 f

    Calls-IsFair :
        {live : List ℕ} {t : GlobalFrameAllocator} {gs : List ℕ} {u : GlobalFrameAllocator}
        → IsFair s live t
        → Calls (allocate_frame crates) t gs u
        → IsFair s (taken gs live) u
    Calls-IsFair f no_call = f
    Calls-IsFair f (call a c e) = allocate-IsFair crates s a (Calls-IsFair f c) e
    Calls-IsFair f (failed_call c e) = failed-IsFair (Calls-IsFair f c) e

    -- A call that uses the allocator alone does not panic.
    CallsOnly-returns :
        {T R : Type 0} {live : List ℕ} {t : GlobalFrameAllocator}
        (m : Run (R × GlobalFrameAllocator × T))
        → IsFair s live t
        → CallsOnly (allocate_frame crates) t m
        → (r : R × GlobalFrameAllocator × T) × (m ≡ ret r)
          × (gs : List ℕ) × Calls (allocate_frame crates) t gs r.1
    CallsOnly-returns (ret r) f (gs, c) = (r, refl, gs, c)
    CallsOnly-returns (panics p) f (gs, b, c, e) =
        absurd (rw e at (allocate_frame-Allocates crates b (Calls-IsFair f c).valid))

    allocate-returns :
        (this : GlobalFrameAllocator) (m : Run (Option ℕ × GlobalFrameAllocator))
        → Allocates this m
        → (o : Option ℕ × GlobalFrameAllocator) × (m ≡ ret o)
    allocate-returns this (ret o) h = (o, refl)
    allocate-returns this (panics p) h = absurd h

    -- The rest of the loop, from every context.
    abbrev Rest : List Flag → List ℕ → Type 0
    Rest flags range =
        (live : List ℕ) (ctx : Ctx)
        → IsFair s live ctx.allocator
        → Mapped flags range live ctx (map_range crates mapper range flags ctx)

    -- One more page before the pages of `g`.
    one_more :
        {flags : List Flag} {page a : ℕ} {range live gs : List ℕ} {ctx : Ctx}
        {u v : GlobalFrameAllocator} {table : mapper.Table} {r : Result} {after : Ctx}
        → IsFair s (a / 4096 ∷ live) u
        → allocate_frame crates ctx.allocator ≡ ret (some a, u)
        → mapper.map_to _ (allocate_frame crates) page a flags u ctx.table ≡ ret (ok tt, v, table)
        → Calls (allocate_frame crates) u gs v
        → Mapping flags range
            (taken gs (a / 4096 ∷ live))
            (record { table = table; allocator = v })
            r
            after
        → Mapping flags (page ∷ range) live ctx r after
    one_more {flags} {page} {a} {range} {live} {gs} {ctx} {u} {v} {table} {r} {after} f ea em c g =
        let before : (i : ℕ) → Member i (a / 4096 ∷ live) → Member i (taken gs (a / 4096 ∷ live)) =
          Member-taken gs (a / 4096 ∷ live) in
        record {
          frames = a / 4096 ∷ g.frames;
          now = g.now;
          run = page_mapped ea em c g.run;
          complete = complete r g.complete;
          fair = g.fair;
          kept = λ i m. g.kept i (before i (inr m));
          fresh = λ i m. elim m [
            | inl e ↦
                (g.kept i (before i (inl e)), λ m'. f.distinct.0 (subst (λ x. Member x live) e m'))
            | inr m' ↦ ((g.fresh i m').0, λ l. (g.fresh i m').1 (before i (inr l)))
          ];
          apart = ((λ m. (g.fresh (a / 4096) m).1 (before (a / 4096) (inl refl))), g.apart);
        }
      where
        complete :
            (r' : Result)
            → Complete r' range g.frames
            → Complete r' (page ∷ range) (a / 4096 ∷ g.frames)
        complete (ok done) h = rw h
        complete (err e) h = omega arith

    after_map_to :
        (page : ℕ) (range : List ℕ) (flags : List Flag) (live gs : List ℕ) (a : ℕ) (ctx : Ctx)
        (u : GlobalFrameAllocator) (mapped : Result × GlobalFrameAllocator × mapper.Table)
        → IsFair s (a / 4096 ∷ live) u
        → allocate_frame crates ctx.allocator ≡ ret (some a, u)
        → mapper.map_to _ (allocate_frame crates) page a flags u ctx.table ≡ ret mapped
        → Calls (allocate_frame crates) u gs mapped.1
        → Rest flags range
        → Mapped flags (page ∷ range) live ctx (map_range crates mapper (page ∷ range) flags ctx)
    unfolding map_range
    after_map_to page range flags live gs a ctx u (err e, v, t) f ea em c rest = (
      err e,
      record { table = t; allocator = v },
      rw (ea, em),
      record {
        frames = [];
        now = taken gs (a / 4096 ∷ live);
        run = refused ea em c;
        complete = omega arith;
        fair = Calls-IsFair f c;
        kept = λ i m. Member-taken gs (a / 4096 ∷ live) i (inr m);
        fresh = λ i m. absurd m;
        apart = tt;
      },
    )
    after_map_to page range flags live gs a ctx u (ok done, v, t) f ea em c rest =
        let (r, after, run, g) =
          rest (taken gs (a / 4096 ∷ live)) (record { table = t; allocator = v })
            (Calls-IsFair f c) in
        (r, after, rw (ea, em) run, one_more f ea em c g)

    after_allocate :
        (page : ℕ) (range : List ℕ) (flags : List Flag) (live : List ℕ) (ctx : Ctx)
        (o : Option ℕ × GlobalFrameAllocator)
        → IsFair s live ctx.allocator
        → allocate_frame crates ctx.allocator ≡ ret o
        → Rest flags range
        → Mapped flags (page ∷ range) live ctx (map_range crates mapper (page ∷ range) flags ctx)
    unfolding map_range
    after_allocate page range flags live ctx (none, u) f e rest = (
      err mapper.frame_allocation_failed,
      record { table = ctx.table; allocator = u },
      rw e,
      record {
        frames = [];
        now = live;
        run = no_frame e;
        complete = omega arith;
        fair = failed-IsFair f e;
        kept = λ i m. m;
        fresh = λ i m. absurd m;
        apart = tt;
      },
    )
    after_allocate page range flags live ctx (some a, u) f e rest =
        let f' = allocate-IsFair crates s a f e in
        let (mapped, em, gs, c) =
          CallsOnly-returns (mapper.map_to _ (allocate_frame crates) page a flags u ctx.table) f'
            (mapper.map_to_calls _ (allocate_frame crates) page a flags u ctx.table) in
        after_map_to page range flags live gs a ctx u mapped f' e em c rest

    -- From an allocator that a history of allocations and deallocations from `s` led to, with the frames
    -- of `live` handed out, `map_range` never panics. It maps the pages in turn, with the flags that it
    -- is given, each to the frame that `allocate_frame` has just returned for it, up to the first error,
    -- which it returns; without one every page is mapped. The frames of the pages differ from each
    -- other and from those of `live`. Afterwards the frames of `live` and of the pages are handed out,
    -- no frame is handed out twice, and each is a usable frame that is marked.
    pub map_range-Mapped :
        (range : List ℕ) (flags : List Flag) (live : List ℕ) (ctx : Ctx)
        → IsFair s live ctx.allocator
        → Mapped flags range live ctx (map_range crates mapper range flags ctx)
    map_range-Mapped [] flags live ctx f = (
      ok tt,
      ctx,
      unfold map_range in refl,
      record {
        frames = [];
        now = live;
        run = all_mapped;
        complete = refl;
        fair = f;
        kept = λ i m. m;
        fresh = λ i m. absurd m;
        apart = tt;
      },
    )
    map_range-Mapped (page ∷ range) flags live ctx f =
        let (o, e) =
          allocate-returns ctx.allocator (allocate_frame crates ctx.allocator)
            (allocate_frame-Allocates crates ctx.allocator f.valid) in
        after_allocate page range flags live ctx o f e
          (λ live' ctx' h. map_range-Mapped range flags live' ctx' h)
