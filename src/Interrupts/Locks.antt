-- ===== src/Interrupts/Locks.antt =====
-- The locks of the kernel and the interrupt flag: `WRITER` of src/vga_buffer.rs, `SERIAL1` of
-- src/serial.rs, `PICS` and `KEYBOARD` of src/interrupts/mod.rs, `PAGING_CTX` of src/memory/mod.rs, the
-- handler of src/acpi.rs and `ALLOCATOR` of src/allocator.rs. `lock` of a spin lock waits until the lock
-- is free. Of a function only what it does to locks and to the flag is kept.
pub mod Waits
use capucho_os.Base.{
  zero, suc, [], ◌≡◌, true, none, ◌||◌, ◌++◌, false, ◌==◌, ◌∷◌, Bool, if◌then◌else◌, List, Option,
  some, ℕ,
}

pub data Lock : Type 0 where
  writer_lock serial_lock pics_lock keyboard_lock paging_lock acpi_lock heap_lock : Lock

abbrev pub lock_number : Lock → ℕ
lock_number writer_lock = 0
lock_number serial_lock = 1
lock_number pics_lock = 2
lock_number keyboard_lock = 3
lock_number paging_lock = 4
lock_number acpi_lock = 5
lock_number heap_lock = 6

-- The two ends of `without_interrupts` of the crate `x86_64`, which sets the flag back to what it was.
pub data Action : Type 0 where
  acquire release : Lock → Action
  critical_start critical_end enable : Action

-- `_print` of the screen and of the serial port.
abbrev pub print_actions : List Action
print_actions = critical_start ∷ acquire writer_lock ∷ release writer_lock ∷ critical_end ∷ []

abbrev pub serial_actions : List Action
serial_actions = critical_start ∷ acquire serial_lock ∷ release serial_lock ∷ critical_end ∷ []

-- `mmap_dev`, `unmap` and `map_range`.
abbrev pub paging_actions : List Action
paging_actions = acquire paging_lock ∷ release paging_lock ∷ []

-- The start of the heap, `stats`, and each call of the global allocator.
abbrev pub heap_actions : List Action
heap_actions = acquire heap_lock ∷ release heap_lock ∷ []

-- The actions `n` times, and then the others.
abbrev pub repeated : ℕ → List Action → List Action → List Action
repeated zero actions rest = rest
repeated (suc n) actions rest = actions ++ repeated n actions rest

-- `map` of `LockedHandler`, when it maps the frame: `insert` may call the global allocator, `n` times.
abbrev pub acpi_map_actions : ℕ → List Action → List Action
acpi_map_actions n rest =
    acquire acpi_lock
    ∷ acquire paging_lock
    ∷ release paging_lock
    ∷ repeated n heap_actions (release acpi_lock ∷ rest)

-- `unmap` of `LockedHandler`, when it unmaps the page: `remove` may call the global allocator.
abbrev pub acpi_unmap_actions : ℕ → List Action → List Action
acpi_unmap_actions n rest =
    acquire acpi_lock
    ∷ repeated n heap_actions (acquire paging_lock ∷ release paging_lock ∷ release acpi_lock ∷ rest)

-- What the crates of the tables and of the interpreter do, besides accesses of ports and memory: calls
-- of the handler that map or unmap, or that only count, calls of the global allocator, and log lines.
pub data Access : Type 0 where
  maps_access unmaps_access : ℕ → Access
  counts_access allocates_access logs_access : Access

abbrev pub access_actions : Access → List Action → List Action
access_actions (maps_access n) rest = acpi_map_actions n rest
access_actions (unmaps_access n) rest = acpi_unmap_actions n rest
access_actions counts_access rest = acquire acpi_lock ∷ release acpi_lock ∷ rest
access_actions allocates_access rest = heap_actions ++ rest
access_actions logs_access rest = serial_actions ++ rest

abbrev pub all_accesses : List Access → List Action → List Action
all_accesses [] rest = rest
all_accesses (a ∷ accesses) rest = access_actions a (all_accesses accesses rest)

-- `apic_init`, and then the others: the name, the arguments and the method of the interpreter, with
-- their `accesses`; `lapic_handover`; the `n` allocations of the vector; and `m` I/O APICs.
abbrev pub handover_actions : List Access → ℕ → ℕ → List Action → List Action
handover_actions accesses n m rest =
    critical_start
    ∷ all_accesses accesses (
        paging_actions
        ++ (acquire pics_lock
            ∷ release pics_lock
            ∷ repeated n heap_actions (repeated m paging_actions (critical_end ∷ rest))))

-- The part of `init` up to the enabled interrupts.
abbrev pub init_actions : List Action
init_actions = acquire pics_lock ∷ release pics_lock ∷ enable ∷ []

-- The handlers; `prints` says whether the key gives a character.
abbrev pub timer_actions : List Action
timer_actions = acquire pics_lock ∷ release pics_lock ∷ []

abbrev pub keyboard_actions : Bool → List Action
keyboard_actions true =
    acquire keyboard_lock ∷ print_actions
    ++ (acquire pics_lock ∷ release pics_lock ∷ release keyboard_lock ∷ [])
keyboard_actions false =
    acquire keyboard_lock ∷ acquire pics_lock ∷ release pics_lock ∷ release keyboard_lock ∷ []

pub data Interrupt : Type 0 where
  timer_interrupt : Interrupt
  keyboard_interrupt : Bool → Interrupt

abbrev pub handler_actions : Interrupt → List Action
handler_actions timer_interrupt = timer_actions
handler_actions (keyboard_interrupt prints) = keyboard_actions prints

-- What the main code does after that, one after the other.
pub data Block : Type 0 where
  prints logs maps_pages uses_heap : Block
  acpi_accesses : List Access → Block
  hands_over : List Access → ℕ → ℕ → Block

abbrev pub block_actions : Block → List Action → List Action
block_actions prints rest = print_actions ++ rest
block_actions logs rest = serial_actions ++ rest
block_actions maps_pages rest = paging_actions ++ rest
block_actions (acpi_accesses accesses) rest = all_accesses accesses rest
block_actions uses_heap rest = heap_actions ++ rest
block_actions (hands_over accesses n m) rest = handover_actions accesses n m rest

abbrev pub main_actions : List Block → List Action
main_actions [] = []
main_actions (b ∷ blocks) = block_actions b (main_actions blocks)

-- The interrupt flag, the flags to go back to, and the locks that are taken.
pub record Config : Type 0 where
  pub interrupts : Bool
  pub saved : List Bool
  pub held : List Lock

abbrev pub is_held : Lock → List Lock → Bool
is_held l [] = false
is_held l (k ∷ held) = (lock_number l == lock_number k) || is_held l held

abbrev pub give_back : Lock → List Lock → List Lock
give_back l [] = []
give_back l (k ∷ held) = if lock_number l == lock_number k then held else k ∷ give_back l held

-- An action, or none if it has to wait.
abbrev pub perform : Action → Config → Option Config
perform (acquire l) c = if is_held l c.held then none else some (record c { held = l ∷ c.held })
perform (release l) c = some (record c { held = give_back l c.held })
perform critical_start c = some (record c { interrupts = false; saved = c.interrupts ∷ c.saved })
perform critical_end c = leave c.saved c
  where
    leave : List Bool → Config → Option Config
    leave [] c = some c
    leave (b ∷ rest) c = some (record c { interrupts = b; saved = rest })
perform enable c = some (record c { interrupts = true })

-- The processor: what is left of the main code, and of the handler that interrupts it.
pub record Processor : Type 0 where
  pub config : Config
  pub main : List Action
  pub handler : Option (List Action)

-- A step of the main code; an interrupt, which is taken only with the flag set and clears it; a step of
-- its handler; and the end of the handler, which sets the flag as it was.
pub data Step : Processor → Processor → Type 0 where
  main_step :
      {c d : Config} {a : Action} {rest : List Action}
      → perform a c ≡ some d
      → Step
          (record { config = c; main = a ∷ rest; handler = none })
          (record { config = d; main = rest; handler = none })
  interrupt :
      {c : Config} {rest : List Action} (i : Interrupt)
      → c.interrupts ≡ true
      → Step
          (record { config = c; main = rest; handler = none })
          (record {
            config = record c { interrupts = false };
            main = rest;
            handler = some (handler_actions i);
          })
  handler_step :
      {c d : Config} {a : Action} {rest left : List Action}
      → perform a c ≡ some d
      → Step
          (record { config = c; main = rest; handler = some (a ∷ left) })
          (record { config = d; main = rest; handler = some left })
  handler_end :
      {c : Config} {rest : List Action}
      → Step
          (record { config = c; main = rest; handler = some [] })
          (record { config = record c { interrupts = true }; main = rest; handler = none })

-- The start of the kernel, with the line that it prints first, and what it reaches.
abbrev pub start_config : Config
start_config = record { interrupts = false; saved = []; held = [] }

abbrev pub start : List Block → Processor
start blocks = record {
  config = start_config;
  main = print_actions ++ (init_actions ++ main_actions blocks);
  handler = none;
}

pub data Reach (blocks : List Block) : Processor → Type 0 where
  at_start : Reach blocks (start blocks)
  reach_step : {p q : Processor} → Reach blocks p → Step p q → Reach blocks q

-- The action that comes next.
abbrev pub first_action : List Action → Option Action
first_action [] = none
first_action (a ∷ rest) = some a

abbrev pub next_action : Processor → Option Action
next_action p = elim p.handler [ none ↦ first_action p.main | some left ↦ first_action left ]
