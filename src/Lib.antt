-- ===== src/Lib.antt =====
-- capucho-os: an x86-64 kernel in Rust. This library models the parts of it that compute or keep state
-- (the physical frame allocator and the mapping of pages, ACPI, the I/O APIC, the PCI configuration
-- space, the interrupt controllers and handlers, the registers of an AHCI adapter, the text screen, and
-- the start of the kernel), with the theorems below.
--
-- How the program's parts interact, and which file models which part:
--
-- - src/memory/frame_allocator/bootstrap.rs takes the first frames of the bootloader's memory map and
--   maps them at the address of the bitmap (Memory/Bootstrap.antt and the files below it:
--   `boot_allocate_frame` is `allocate_frame` of that file, `allocate_bitmap_frame` has its name).
-- - src/memory/frame_allocator/mod.rs keeps one bit for a frame. Memory/Frames.antt has the operations
--   (`is_used`, `mark_used`, `mark_unused`, `deallocate_frame`, `recalculate_next_usable`,
--   `allocate_frame`, `get_frame_ty`), Memory/Init.antt has `init`. Memory/Region.antt is the memory map
--   and Memory/External.antt what the crates bootloader and x86_64 give. The state is a list of 32-bit
--   words, the map and `next_usable`. Memory/Frames/Bitmap, Marks, Search, Allocate, RegionOf and History
--   and the files of Memory/Init have the proofs.
-- - src/memory/mod.rs maps pages with frames of the allocator: Memory/Paging.antt (`mmap_dev`, `unmap`,
--   `map_range`); Memory/Paging/Range.antt follows the allocator through `map_range`,
--   Memory/Paging/Device.antt through `mmap_dev` and Memory/Paging/Release.antt through `unmap` after it.
--   Memory/Context.antt is `init`, which sets the static `PAGING_CTX`.
--   src/allocator.rs maps the pages of the heap with it: Memory/Heap.antt.
-- - src/apic.rs: Apic/RedirEntry.antt is the redirection entry, a 64-bit number; Apic/Routing.antt
--   chooses the I/O APIC of an interrupt; Apic/Registers.antt reaches its registers through a selector
--   and a data address, and Apic/Registers/Iterate.antt runs its iterator; Apic/Entries.antt is `get_entry` and `set_entry`;
--   Apic/Start.antt is `lapic_handover` and `apic_init`, and Apic/Start/Route.antt follows one entry.
-- - src/interrupts/controller.rs: Interrupts/Controller.antt; Interrupts/Programming.antt describes the
--   two 8259 chips by the bytes that they are sent.
--   src/interrupts/mod.rs: Interrupts/Handlers.antt has the handlers of the timer and the keyboard and the
--   table, Interrupts/Exceptions.antt the handlers of exceptions with `hlt_loop` of src/lib.rs, and
--   Interrupts/Locks.antt what all parts do to locks and to the interrupt flag, as steps of the processor.
-- - src/pci.rs and the PCI part of src/acpi/handlers.rs: Pci.antt and Pci/Aml.antt.
-- - src/acpi.rs and the rest of src/acpi/handlers.rs: Acpi/Handler.antt is `Handler`, the counts of the
--   mapped frames beside the paging context that `mmap_dev` locks (Acpi/Handler/History.antt has the
--   sequences of its operations); Acpi/Regions.antt maps and unmaps
--   regions with it, Acpi/Accesses.antt has the accesses of the interpreter, Acpi/Tables.antt is
--   `bios_get_acpi` (Acpi/Tables/Parsed.antt and Boot.antt follow a run of it) and Acpi/Power.antt `enable`, `get_sleep_state` and `set_sleep_state`. `LockedHandler`
--   is the `Handler` that it locks.
-- - src/lib.rs and src/main.rs: Kernel/Start.antt is `init`, which calls `init` of src/gdt.rs, the
--   interrupt controllers, the frame allocator and the heap; Kernel/Tick.antt is the timer, `sleep` and
--   `exit_qemu`; Kernel/Sata.antt is the search for the SATA controller and the mapping of its registers,
--   Kernel/Sata/Log.antt has the log lines and Kernel/Sata/Registers.antt those on the registers, and
--   Kernel/Main.antt is `kernel_main`.
--   Kernel/Testing.antt has the test runner and the panic handlers of both files.
--   src/logger.rs and src/serial.rs are Kernel/Logger.antt, and Kernel/Gdt.antt the statics of src/gdt.rs.
-- - src/ahci.rs: Ahci.antt, with the register block as a record, Ahci/Flags.antt and Ahci/Debug.antt.
-- - src/vga_buffer.rs: Vga.antt, with the screen as a list of rows; Vga/Lines.antt has the text that it
--   shows the end of, and Vga/Print.antt the global writer and the macros.
-- - Base.antt and the files below it: lists indexed by native numbers, the bits of a number (Base/Bits and
--   Base/Shifts), code that may panic (`Run` of Base/Panicking), device access (`Io` of Base/Io) and maps
--   (Base/Dict).
--
-- Conventions. A Rust integer is a natural number; a cast to w bits is `% 2 ^ w`; where the source adds or
-- multiplies and may overflow, the model panics, as the development profile of Cargo does. `Run A` is a
-- value or the panic that ended the code. `Io A` also takes the machine, which answers each read from
-- what happened before, and the log of accesses, latest first. A property over a device has what it
-- relies on of the device as a hypothesis: `KeepsRegisters` for an I/O APIC and `ServesConfig` for the
-- configuration space.
--
-- Loops are structural recursion: on the memory map, on the frames of a region, or on the number of
-- rounds that the bounds of the loop give (25 rows, 80 columns, 256 buses, 32 devices, 8 functions, the
-- 300 rounds of `enable`), so no run is cut short.
--
-- Parameters stand for code of other crates. `Crates` (Memory/External.antt) has the functions on
-- addresses, frames and pages, with what their documentation says of them; `Mapper` is the page mapper,
-- which may call the frame allocator that it is given any number of times. `AmlCrate` and `TableCrates`
-- are the crates aml and acpi, which may use the handler and the devices; `PciTypes`, `AddressCrate` and
-- `KeyboardCrate`
-- are the crates pci_types and pc_keyboard; `FaultCrates` is what the exception handlers use of x86_64,
-- `GdtCrate` its segment table, and `Formats` and `decimal` what `core::fmt` writes.
--
-- Memory accesses of src/acpi.rs pass the page tables or end in a page fault, as the processor decides,
-- which is a parameter (`lets` of Acpi/Accesses.antt). A use of
-- the frame bitmap past the pages that are mapped for it ends the run like an index past its end. The
-- accesses of other parts are taken to pass.
--
-- A loop without an end is given the number of its rounds that are run (`hlt_loop`).
--
-- Not modelled: the device of the serial port (src/serial.rs) and the heap itself, which are crates; `stats` of
-- src/allocator.rs and `aml_context` of src/acpi.rs, which only pass on; what `core::fmt` makes of a
-- value, which is given as bytes; the level filter of the log crate (the panic handler has it as an
-- argument); the log lines of src/acpi.rs, src/acpi/handlers.rs and src/apic.rs. But
-- for Interrupts/Locks.antt, locks and the interrupt flag are left out, since every operation runs under
-- the lock of its object.
mod Base
pub mod Memory
pub mod Apic
pub mod Vga
pub mod Pci
pub mod Ahci
pub mod Interrupts
pub mod Acpi
pub mod Kernel
