-- ===== src/Kernel/Start.antt =====
-- `init` of src/lib.rs: the order in which the kernel starts, with `init` of src/gdt.rs and `init_idt`.
-- Of the tables it is modelled only that they are loaded.
pub mod Outcome
use capucho_os.Base.{
  ℕ, List, Option, none, some, false, Run, ret, panics, Panic, message, or_panic, unwrap_none,
}
use capucho_os.Base.Io.{
  Io, ◌>>=◌, ◌>>◌, pure, lift, log, instruction, load_gdt, set_cs, load_tss, load_idt,
  enable_interrupts,
}
use capucho_os.Memory.External.{Crates, Mapper, MapResult, ok, err}
use capucho_os.Memory.Region.{MemoryRegion}
use capucho_os.Memory.Context.{BootInfo}
use capucho_os.Memory.Context
use capucho_os.Memory.Heap.{Kernel, init_heap}
use capucho_os.Interrupts.Controller
use capucho_os.Interrupts.Handlers.{first_pics}
use capucho_os.Kernel.Tick.{pit_init}

-- `init` of src/gdt.rs.
unfoldable pub gdt_init : Io (Unit {0})
gdt_init = do log (instruction load_gdt); log (instruction set_cs); log (instruction load_tss)

unfoldable pub init_idt : Io (Unit {0})
init_idt = log (instruction load_idt)

-- The first five calls of `init`.
unfoldable pub init_hardware : Io (Unit {0})
init_hardware = do
  gdt_init
  init_idt
  Controller.init first_pics
  log (instruction enable_interrupts)
  pit_init

abbrev pub heap_failed : Panic
heap_failed = message "heap initialization failed"

module _ (crates : Crates) (mapper : Mapper) where
  unfoldable pub expect_heap :
      MapResult (Unit {0}) mapper.MapToError × Kernel crates mapper → Run (Kernel crates mapper)
  expect_heap (err e, kernel) = panics heap_failed
  expect_heap (ok done, kernel) = ret kernel

  -- `set_logger` is the result of `log::set_logger`, and `raw` what the memory of the bitmap holds. The
  -- start of the heap takes the paging context from its static.
  unfoldable pub init : Option (Unit {0}) → (ℕ → ℕ) → BootInfo mapper → Io (Kernel crates mapper)
  init set_logger raw boot = do
    init_hardware
    logger ← lift (or_panic unwrap_none set_logger)
    phys_mem_offset ← lift (crates.virt_addr_new boot.physical_memory_offset)
    paging_ctx ← lift (Context.init crates mapper none raw boot phys_mem_offset)
    context ← lift (or_panic unwrap_none paging_ctx)
    heap ←
        lift
          (init_heap crates mapper (record { context = context; heap = none; initialized = false }))
    lift (expect_heap heap)
