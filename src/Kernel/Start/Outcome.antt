-- ===== src/Kernel/Start/Outcome.antt =====
-- What `init` of src/lib.rs comes to: the interrupts are enabled after the tables are loaded and the
-- chips programmed, and the heap starts on the allocator that the memory was given to.
use capucho_os.Base.{
  or_panic, Option, arith, unwrap_none, ◌<◌, ◌^◌, false, ret-injective, ℕ, ◌+◌, ◌≡◌, ◌≤◌, ◌⊎◌, inl,
  inr, refl, List, [], ◌∷◌, none, some, Run, ret, panics, length, subst, sym,
}
use capucho_os.Base
use capucho_os.Base.Io.{
  Event, Machine, byte, port_write, instruction, load_gdt, set_cs, load_tss, load_idt,
  enable_interrupts, after, ◌>>=◌, ◌>>◌, lift,
}
use capucho_os.Memory.External.{Crates, Mapper, MapResult, ok, err, steps, present, writable}
use capucho_os.Memory.Region.{MemoryRegion, IsSorted, last_end}
use capucho_os.Memory.Frames.Bitmap.{GlobalFrameAllocator}
use capucho_os.Memory.Frames.History.{start, Reach-IsFair}
use capucho_os.Memory.Init
use capucho_os.Memory.Context
use capucho_os.Memory.Context.{BootInfo, active_level_4_table, call_once}
use capucho_os.Memory.Init.Bitmaps.{GivesUp}
use capucho_os.Memory.Init.Outcome.{IsReady, Inits, init-Inits}
use capucho_os.Memory.Heap.{Kernel, init_heap, init_heap-Mapped, heap_start, heap_size, start_heap}
use capucho_os.Memory.Paging.{PagingContext}
use capucho_os.Memory.Paging.Range.{Mapping}
use capucho_os.Interrupts.Controller.{
  pics, init_pics, wait, pic1_cmd_port, pic1_data_port, pic2_cmd_port, pic2_data_port,
}
use capucho_os.Interrupts.Controller
use capucho_os.Interrupts.Programming.{chip, programmed, init-Programs}
use capucho_os.Interrupts.Handlers.{first_pics}
use capucho_os.Kernel.Tick.{pit_init}
use capucho_os.Kernel.Start.{gdt_init, init_idt, init_hardware, heap_failed, expect_heap, init}

-- The log `past` with the tables loaded.
abbrev pub loaded : List Event → List Event
loaded past =
    instruction load_idt ∷ instruction load_tss ∷ instruction set_cs ∷ instruction load_gdt ∷ past

-- In the log the interrupts were enabled, and then the timer was set to a rate, when the tables were
-- loaded and both chips took their offsets.
pub record HardwareReady (mach : Machine) (past log : List Event) : Type 0 where
  pub mid : List Event
  pub mask1 : ℕ
  pub mask2 : ℕ
  pub programs : Controller.init first_pics mach (loaded past) ≡ ret (tt, mid)
  pub first : chip pic1_cmd_port mid ≡ programmed 32 2 mask1
  pub second : chip pic2_cmd_port mid ≡ programmed 40 4 mask2
  pub ends :
      log
      ≡ after mid (
          instruction enable_interrupts
          ∷ port_write byte 0x43 0x34
          ∷ port_write byte 0x40 0xA9
          ∷ port_write byte 0x40 0x04
          ∷ [])

init_hardware-HardwareReady :
    (mach : Machine) (past : List Event)
    → (log : List Event) × (init_hardware mach past ≡ ret (tt, log)) × HardwareReady mach past log
unfolding init_hardware gdt_init init_idt pit_init
init_hardware-HardwareReady mach past =
    let (mid, run, first, second) = init-Programs 32 40 mach (loaded past) in
    (
      _,
      rw (◌>>=◌, ◌>>◌, run),
      record {
        mid = mid;
        mask1 = _;
        mask2 = _;
        programs = run;
        first = first;
        second = second;
        ends = refl;
      },
    )

-- The page tables that `active_level_4_table` gives.
abbrev pub active_table : (mapper : Mapper) → BootInfo mapper → mapper.Table
active_table mapper boot =
    let offset = boot.physical_memory_offset in
    boot.offset_page_table (offset + boot.level_4_table_frame) offset

module _ (crates : Crates) (mapper : Mapper) (map : List MemoryRegion) (raw : ℕ → ℕ) (end : ℕ)
    (table : mapper.Table) (mach : Machine) (past : List Event) where
  -- The outcomes of `init`: it panics because a frame for the bitmap is missing or refused, or because
  -- the heap cannot be mapped; or the hardware is ready, the heap has its range, and from what
  -- `GlobalFrameAllocator::init` returned each of its 125 pages was mapped, present and writable, to a
  -- frame that was handed out for it.
  abbrev pub Starts : Run (Kernel crates mapper × List Event) → Type 0
  Starts (panics p) = GivesUp p ⊎ (p ≡ heap_failed)
  Starts (ret (kernel, log)) =
      HardwareReady mach past log
      × (kernel.heap ≡ some (heap_start, heap_size))
      × (s : GlobalFrameAllocator) × (after : mapper.Table) × (Init.init crates mapper raw map table
          ≡ ret (s, after))
      × IsReady crates mapper map raw end table after s
      × Mapping crates mapper s (present ∷ writable ∷ []) (steps 4096 125 heap_start) []
          (record { table = after; allocator = s }) (ok tt) kernel.context

  abbrev unstarted : PagingContext crates mapper → Kernel crates mapper
  unstarted context = record { context = context; heap = none; initialized = false }

  -- The end of `init` of src/memory/mod.rs.
  abbrev with_context :
      Run (GlobalFrameAllocator × mapper.Table) → Run (Option (PagingContext crates mapper))
  with_context m =
      Base.◌>>=◌ m
        (λ memory. ret (call_once none (record { table = memory.1; allocator = memory.0 })))

  abbrev fresh : GlobalFrameAllocator × mapper.Table → Kernel crates mapper
  fresh memory = record {
    context = record { table = memory.1; allocator = memory.0 };
    heap = none;
    initialized = false;
  }

  heap-Starts :
      (log : List Event) (s : GlobalFrameAllocator) (after : mapper.Table)
      (r : MapResult (Unit {0}) mapper.MapToError) (context : PagingContext crates mapper)
      → HardwareReady mach past log
      → Init.init crates mapper raw map table ≡ ret (s, after)
      → IsReady crates mapper map raw end table after s
      → Mapping crates mapper s
          (present ∷ writable ∷ [])
          (steps 4096 125 heap_start)
          []
          (record { table = after; allocator = s })
          r
          context
      → Starts (
          lift
            (expect_heap crates mapper (start_heap crates mapper (fresh (s, after)) (r, context)))
            mach
            log)
  unfolding expect_heap start_heap
  heap-Starts log s after (err e) context hw run ready mapped = inr refl
  heap-Starts log s after (ok done) context hw run ready mapped =
      (hw, refl, s, after, run, ready, mapped)

  memory-Starts :
      (log : List Event) (m : Run (GlobalFrameAllocator × mapper.Table))
      → HardwareReady mach past log
      → Init.init crates mapper raw map table ≡ m
      → Inits crates mapper map raw end table m
      → Starts (
          (lift (with_context m) >>= λ paging_ctx.
          lift (or_panic unwrap_none paging_ctx) >>= λ context.
          lift (init_heap crates mapper (unstarted context)) >>= λ heap.
          lift (expect_heap crates mapper heap))
            mach log)
  unfolding call_once
  memory-Starts log (panics p) hw same g = inl g
  memory-Starts log (ret (s, after)) hw same ready =
      let (r, context, mapped, run, kept) =
        init_heap-Mapped crates mapper s [] (fresh (s, after))
          (Reach-IsFair crates s ready.valid start) in
      let plan : lift
            (expect_heap crates mapper (start_heap crates mapper (fresh (s, after)) (r, context)))
            mach log
          ≡ (lift (init_heap crates mapper (fresh (s, after))) >>= λ heap.
                lift (expect_heap crates mapper heap))
              mach log =
        sym (rw (◌>>=◌, run)) in
      subst Starts plan (heap-Starts log s after r context hw same ready kept)

module _ (crates : Crates) (mapper : Mapper) (map : List MemoryRegion) (raw : ℕ → ℕ) (end : ℕ)
    (mach : Machine) (past : List Event) (sorted : IsSorted 0 map) (few : length map ≤ 64) where
  -- On a sorted memory map of 1 to 64 regions, which ends with the frame before `end`, for an active
  -- table whose address is below 2 ^ 47, with the logger accepted, on every machine and for every
  -- mapper: `init` panics because a frame for the bitmap is missing or refused, or because the heap
  -- cannot be mapped; or it returns with the interrupts enabled after the tables were loaded and both
  -- chips programmed, and from the allocator that `GlobalFrameAllocator::init` returned each of the
  -- 125 pages of the heap is mapped, present and writable, to the frame that was just handed out for
  -- it, all different.
  pub init-Starts :
      (boot : BootInfo mapper)
      → boot.memory_map ≡ map
      → boot.physical_memory_offset + boot.level_4_table_frame < 2 ^ 47
      → last_end map ≡ some end
      → Starts crates mapper map raw end
          (active_table mapper boot)
          mach
          past
          (init crates mapper (some tt) raw boot mach past)
  unfolding init Context.init active_level_4_table call_once
  init-Starts boot same low e =
      let (log, run, hw) = init_hardware-HardwareReady mach past in
      let offset = boot.physical_memory_offset in
      let table = active_table mapper boot in
      let plan : (lift (
                with_context crates mapper map raw end table mach past
                  (Init.init crates mapper raw map table))
              >>= λ paging_ctx. lift (or_panic unwrap_none paging_ctx) >>= λ context.
                  lift (
                    init_heap crates mapper
                      (unstarted crates mapper map raw end table mach past context))
                  >>= λ heap. lift (expect_heap crates mapper heap))
            mach log
          ≡ init crates mapper (some tt) raw boot mach past =
        sym (
          rw (
            init,
            ◌>>=◌,
            ◌>>◌,
            run,
            crates.virt_addr_new_lem offset (omega arith),
            Context.init,
            active_level_4_table,
            crates.virt_addr_new_lem (offset + boot.level_4_table_frame) low,
            same,
          )) in
      subst (Starts crates mapper map raw end table mach past) plan (
        memory-Starts crates mapper map raw end table mach past log
          (Init.init crates mapper raw map table) hw refl
          (init-Inits crates mapper map sorted few raw end table e))
