-- ===== src/Kernel/Tests.antt =====
-- The start of the kernel at concrete inputs.
use capucho_os.Kernel.Sata.Log.{Formats, Class, memory32}
use capucho_os.Memory.Context.{BootInfo}
use capucho_os.Base.Text.{codes}
use capucho_os.Vga.Lines.{Shows}
use capucho_os.Vga.{Writer}
use capucho_os.Vga.Print.{type_lines}
use capucho_os.Kernel.Testing.{panic_handler, test_panic_handler, test_runner, Testable}
use capucho_os.Kernel.Testing.Handlers.{panic_handler-Shows}
use capucho_os.Kernel.Logger.Line.{record_text, sent}
use capucho_os.Interrupts.Exceptions.Fault.{halts}
use capucho_os.Kernel.Sata.Mapped.{IsMapped, log_registers-IsMapped}
use capucho_os.Kernel.Sata.Registers.{log_registers}
use capucho_os.Kernel.Testing.Outcome.{Tested, test_runner-Tested}
use capucho_os.Base.{
  Option, true, All, unreachable_code, ◌++◌, ℕ, ◌≡◌, refl, List, [], ◌∷◌, none, some, ret, arith,
  ◌==◌, if◌then◌else◌,
}
use capucho_os.Base.Io.{port_write, dword, panic, Event, Machine, pure, after, serial_sent}
use capucho_os.Kernel.Logger.{Record, log_record, print_file, print_line, serial_print}
use capucho_os.Vga.Example.{start, top, top-Shows}
use capucho_os.Memory.Example.{crates, mapper, small_map}
use capucho_os.Pci.{PciAddress, address_of}
use capucho_os.Acpi.Regions.Balance.{occurrences}
use capucho_os.Kernel.Start.{init}
use capucho_os.Kernel.Start.Outcome.{Starts, init-Starts}
use capucho_os.Kernel.Sata.{PciTypes, find_sata, abar_frames}
use capucho_os.Kernel.Sata.Frames.{touches, abar_frames-touches}
use capucho_os.Kernel.Sata.Search.{Answers, last_sata, find_sata-last_sata}

abbrev machine : Machine
machine = record {
  port_value = λ past w port. 0xFF;
  mem_value = λ past a. 0;
  sized_value = λ past size a. 0;
}

-- The table is at the frame 0x2000, which is mapped at 0x18000002000.
abbrev boot_info : BootInfo mapper
boot_info = record {
  physical_memory_offset = 0x18000000000;
  memory_map = small_map;
  level_4_table_frame = 0x2000;
  offset_page_table = λ address offset. [];
}

init-Starts_example :
    Starts crates mapper small_map
      (λ i. 0)
      40
      []
      machine
      []
      (init crates mapper (some tt) (λ i. 0) boot_info machine [])
init-Starts_example =
    init-Starts crates mapper small_map (λ i. 0) 40 machine [] (omega arith) (omega arith) boot_info
      refl (omega arith) refl

abar_frames-touches_example :
    (fs : List ℕ) × (abar_frames crates mapper 0xFEBD5000 0x1000 ≡ ret fs)
    × ((j : ℕ) → occurrences j fs ≡ touches 0xFEBD5000 0xFEBD6000 j)
abar_frames-touches_example =
    abar_frames-touches crates mapper 0xFEBD5000 0x1000 (omega arith) (omega arith)

abbrev place : Record
place = record {
  level = [];
  target = codes "capucho_os";
  file = some (codes "src/main.rs");
  line = none;
  args = [];
}

abbrev formats : Formats
formats = record {
  decimal = λ n. codes "0";
  hex_text = λ n. codes "0x0";
  capabilities_text = λ n. codes "(empty)";
  control_text = λ n. codes "(empty)";
  interrupt_text = λ n. codes "(empty)";
  place = place;
  address_text = λ address. codes "0000:00:1f.2";
  device_text = λ class subclass. codes "SataController";
  bar_text = λ b. codes "Memory32";
}

-- Device 31 of bus 0 is a SATA controller, and the header of device 0 is a bridge's.
abbrev class_of : PciAddress → Class
class_of h =
    if h.device == 31
    then record { revision = 2; class = 1; subclass = 6; interface = 1 }
    else record { revision = 0; class = 6; subclass = 0; interface = 0 }

abbrev endpoint_of : PciAddress → Option PciAddress
endpoint_of h = if h.device == 0 then none else some h

abbrev pci : PciTypes
pci = record {
  EndpointHeader = PciAddress;
  revision_and_class = λ h. pure (class_of h);
  header_type = λ h. pure (if h.device == 0 then 1 else 0);
  from_header = λ h. pure (endpoint_of h);
  bar = λ h slot. pure (some (memory32 0xFEBD5000 0x1000));
}

abbrev bus : List PciAddress
bus = address_of 0 0 0 ∷ address_of 0 31 0 ∷ address_of 0 31 2 ∷ address_of 0 2 0 ∷ []

answers : Answers pci machine class_of endpoint_of
answers = record {
  class_read = λ h past. (past, refl);
  kind_read = λ h past. (_, past, refl);
  header_read = λ h past. (past, refl);
}

find_sata-last_sata_example :
    (log : List Event) × (find_sata pci formats bus none machine []
      ≡ ret (last_sata pci machine class_of endpoint_of bus, log))
find_sata-last_sata_example =
    find_sata-last_sata pci machine class_of endpoint_of formats answers bus []

-- The line `[I][k][a:7]x` and a line feed.
log_line :
    log_record
      (record {
        level = b'I' ∷ [];
        target = b'k' ∷ [];
        file = some (b'a' ∷ []);
        line = some (b'7' ∷ []);
        args = b'x' ∷ [];
      })
      machine
      []
    ≡ ret (
      tt,
      after [] (
          serial_sent b'['
          ∷ serial_sent b'I'
          ∷ serial_sent b']'
          ∷ serial_sent b'['
          ∷ serial_sent b'k'
          ∷ serial_sent b']'
          ∷ serial_sent b'['
          ∷ serial_sent b'a'
          ∷ serial_sent b':'
          ∷ serial_sent b'7'
          ∷ serial_sent b']'
          ∷ serial_sent b'x'
          ∷ serial_sent b'\n'
          ∷ []),
    )
unfolding log_record print_file print_line serial_print
log_line = refl

-- A test that passes and one that panics.
abbrev passing : Testable
passing = record { type_name = codes "passing"; body = pure tt }

abbrev failing : Testable
failing = record { type_name = codes "failing"; body = panic unreachable_code }

test_runner-Tested_example :
    Tested
      (λ n. codes "2")
      machine
      (passing ∷ failing ∷ [])
      []
      (test_runner (λ n. codes "2") (passing ∷ failing ∷ []) machine [])
test_runner-Tested_example = test_runner-Tested (λ n. codes "2") (passing ∷ failing ∷ []) machine []

panic_handler-Shows_example :
    ((w : Writer) × (panic_handler (codes "oh") place true top 2 machine []
        ≡ ret (
          w,
          halts 2
              (sent [] (record_text (record place { level = codes "ERROR"; args = codes "oh" }))),
        ))
      × Shows w 7 (type_lines 7 start ((codes "oh" ∷ []) ∷ [])))
    × (test_panic_handler (codes "oh") 2 machine []
        ≡ ret (
          tt,
          halts 2 (
              port_write dword 0xf4 0x11
              ∷ sent [] (codes "[failed]\n\n" ++ (codes "Error: " ++ codes "oh" ++ codes "\n\n"))),
        ))
panic_handler-Shows_example =
    panic_handler-Shows (codes "oh") place true top 7 start 2 machine [] top-Shows

log_registers-IsMapped_example :
    (fs : List ℕ) × (abar_frames crates mapper 0xFEBD4000 0x2000 ≡ ret fs)
    × ((mach : Machine)
        → (log : List Event) × (log_registers formats 0xFEBD4000 mach [] ≡ ret (tt, log))
          × All (IsMapped fs) log)
log_registers-IsMapped_example =
    log_registers-IsMapped crates mapper formats 0xFEBD4000 0x2000 (omega arith) (omega arith)
