-- ===== src/Acpi/Tests.antt =====
-- The ACPI part at concrete inputs: a handler with one frame that is mapped twice, and an interpreter
-- whose sleep types are 5.
use capucho_os.Acpi.Tables.{
  read_fadt, load_ssdts, TableCrates, load_dsdt, bios_get_acpi, finish, load_tables, map_table,
  second_control, load_table,
}
use capucho_os.Acpi.Tables.Boot.{tables_in, bios_get_acpi-Parses}
use capucho_os.Acpi.Tables.Parsed.{KeepsCounts, Parses}
use Prim.Native.String.{String}
use capucho_os.Base.{
  leb, ◌%◌, ◌/◌, subst, ret-injective, ℕ, ◌+◌, ◌≡◌, ◌≤◌, refl, Bool, true, false, List, [], ◌∷◌,
  some, ret, arith, inl,
}
use capucho_os.Base.Io.{Event, Machine, pure}
use capucho_os.Memory.Example.{frames_inclusive, crates, mapper, context, small}
use capucho_os.Memory.Paging.{UnmapGuard}
use capucho_os.Memory.Frames.Bitmap.{
  allocate_frame, recalculate_next_usable, find_unused, skip_below, is_used, mark_used,
  frame_in_use, frame_idx_to_parts,
}
use capucho_os.Memory.Frames.RegionOf.{get_frame_ty, find_region, holds_frame}
use capucho_os.Memory.Region.{usable_frames}
use capucho_os.Memory.Example.{map_page}
use capucho_os.Memory.Paging.{mmap_dev, extra_flags, guard_mapped}
use capucho_os.Acpi.Handler.{Handler, new, map, map_entry, first_map, unmap}
use capucho_os.Acpi.Handler.History.{Balanced, mapped, map_step, start, Reach-Serves}
use capucho_os.Acpi.Handler.Counts.{Maps, Unmaps}
use capucho_os.Acpi.Handler.Refs.{IsCounted, put-IsCounted}
use capucho_os.Acpi.Regions.{PhysicalMapping, map_all, map_physical_region, unmap_physical_region}
use capucho_os.Acpi.Regions.Balance.{Restores, unmap_physical_region-map_physical_region}
use capucho_os.Acpi.Accesses.{read, write}
use capucho_os.Acpi.Accesses.Counted.{Reads, Writes, access_outcomes}
use capucho_os.Acpi.Power.{AmlCrate, Registers, s5, enable, set_sleep_state}
use capucho_os.Acpi.Power.Enable.{wakes, enable-wakes, enable-true}
use capucho_os.Acpi.Power.Sleep.{Sleeps, set_sleep_state-Sleeps}

abbrev guard : UnmapGuard
guard = record { page = 0x3000; unmap_frame = false }

-- The handler with the frame at 0x3000 mapped `n` times.
abbrev handler : ℕ → Handler crates mapper
handler n = record { mapping_refs = (0x3000, (n, guard)) ∷ []; context = context }

handler-IsCounted : IsCounted (handler 2).mapping_refs
handler-IsCounted =
    put-IsCounted [] 0x3000 2 guard (omega arith) (record { once = tt; positive = λ key. inl refl })

-- A new handler after the frame at 0 was mapped: frame 3 went to a page table.
abbrev first_handler : Handler crates mapper
first_handler = record {
  mapping_refs = (0, (1, record { page = 0; unmap_frame = true })) ∷ [];
  context = record {
    table = (0, 0) ∷ [];
    allocator = record small { next_usable = 3; bitmap = 0xfe ∷ 0 ∷ [] };
  };
}

zero_mapped : map crates mapper (new crates mapper context) 0 ≡ ret first_handler
unfolding map map_entry first_map mmap_dev extra_flags guard_mapped get_frame_ty find_region
    frame_in_use allocate_frame recalculate_next_usable find_unused skip_below is_used mark_used
    frame_idx_to_parts usable_frames map_page holds_frame
zero_mapped = refl

Reach-Serves_example :
    Balanced crates mapper context (mapped 0 ∷ []) first_handler
    × Maps crates mapper first_handler 0 (map crates mapper first_handler 0)
    × Unmaps crates mapper first_handler 0 (unmap crates mapper first_handler 0)
Reach-Serves_example =
    Reach-Serves crates mapper context first_handler 0 (map_step 0 start zero_mapped)

abbrev region : PhysicalMapping
region = record {
  physical_start = 0x3000;
  virtual_start = 0x3010;
  region_length = 16;
  mapped_length = 0x1000;
}

region_mapped : map_physical_region crates mapper (handler 2) 0x3010 16 ≡ ret (region, handler 3)
unfolding map_physical_region map_all map map_entry capucho_os.Memory.Example.frames_inclusive
region_mapped = refl

unmap_physical_region-map_physical_region_example :
    Restores crates mapper (handler 2) (unmap_physical_region crates mapper (handler 3) region)
unmap_physical_region-map_physical_region_example =
    unmap_physical_region-map_physical_region crates mapper (handler 2) (handler 3) 0x3010 16 region
      handler-IsCounted (omega arith) region_mapped

-- Every register reads 1.
abbrev machine : Machine
machine = record {
  port_value = λ past w port. 1;
  mem_value = λ past a. 0;
  sized_value = λ past size a. 0;
}

abbrev registers : Registers
registers = record {
  smi_cmd_port = 0xB2;
  pm1a_cnt = 0x604;
  pm1b_cnt = some 0x608;
  acpi_enable = 0xF1;
}

enable-wakes_example :
    (b : Bool) × (log : List Event) × (enable registers machine [] ≡ ret (b, log))
    × (wakes log ≤ 3000 + wakes [])
enable-wakes_example = enable-wakes registers machine []

enable-true_example : (log : List Event) × (enable registers machine [] ≡ ret (true, log))
enable-true_example =
    enable-true registers machine 0 [] (λ e. omega (arith, e)) (λ e. omega (arith, e))
      (λ past late. refl) (λ past late. refl) (omega arith)

abbrev aml : AmlCrate
aml = record {
  Context = Unit {0};
  Name = String;
  Value = ℕ;
  name_from_str = some;
  invoke_method = λ context name argument. pure (some 0x505, context);
  package_items = λ value. some (value ∷ []);
  as_integer = λ value context. some value;
}

set_sleep_state-Sleeps_example :
    Sleeps aml registers tt s5 machine [] (set_sleep_state aml registers tt s5 machine [])
set_sleep_state-Sleeps_example = set_sleep_state-Sleeps aml registers tt s5 machine []

-- The processor lets pass what lies in one frame.
abbrev in_one_frame : mapper.Table → Bool → ℕ → ℕ → Bool
in_one_frame table writes address size = leb (address % 4096 + size / 8) 4096

access_outcomes_example :
    Reads crates mapper in_one_frame
      (handler 2)
      0x3010
      []
      16
      (read crates mapper in_one_frame (handler 2) 16 0x3010 machine [])
    × Writes crates mapper in_one_frame
        (handler 2)
        0x3010
        []
        16
        7
        (write crates mapper in_one_frame (handler 2) 16 0x3010 7 machine [])
access_outcomes_example =
    access_outcomes crates mapper in_one_frame (handler 2) 0x3010 [] machine 16 7 handler-IsCounted
      (omega arith)

-- A DSDT and a SSDT in frame 0, and an interpreter that counts what it parses.
abbrev tables : TableCrates crates mapper aml
tables = record {
  Tables = Unit {0};
  Interpreter = ℕ;
  search_for_rsdp_bios = λ handler. pure (some tt, handler);
  dsdt = λ found. some (record { address = 0x10; length = 16 });
  ssdts = λ found. record { address = 0x20; length = 16 } ∷ [];
  get_fadt = λ found handler. pure (
    some (
        some (record {
          acpi_enable = 0xF1;
          smi_cmd_port = 0xB2;
          pm1a_control_block = some 0x604;
          pm1b_control_block = some (some 0x608);
        })),
    handler,
  );
  new_interpreter = 0;
  parse_table = λ interpreter table handler. pure (some (interpreter + 1), handler);
  initialize_objects = λ interpreter handler. pure (some interpreter, handler);
  with_handler = λ interpreter handler. tt;
}

keeps : KeepsCounts crates mapper aml tables machine
keeps = record {
  search_keeps =
      λ this past log o next h e. subst (λ p. IsCounted p.0.1.mapping_refs) (ret-injective e) h;
  parse_keeps = λ context table this past log o next h e.
      subst (λ p. IsCounted p.0.1.mapping_refs) (ret-injective e) h;
}

booted :
    bios_get_acpi crates mapper aml tables context machine []
    ≡ ret (record { tables_found = tt; aml_context = tt; registers = registers }, [])
unfolding bios_get_acpi load_tables finish load_dsdt load_ssdts load_table map_table read_fadt
    second_control map_all map map_entry first_map mmap_dev extra_flags guard_mapped get_frame_ty
    find_region frame_in_use allocate_frame recalculate_next_usable find_unused skip_below is_used
    mark_used frame_idx_to_parts usable_frames map_page holds_frame
    capucho_os.Memory.Example.frames_inclusive
booted = refl

bios_get_acpi-Parses_example :
    (found : Unit {0}) × (this : Handler crates mapper) × (mid : List Event) × (end : ℕ
      × Handler crates mapper
      × List Event)
    × (tables.search_for_rsdp_bios (new crates mapper context) machine []
        ≡ ret ((some found, this), mid))
    × Parses crates mapper aml tables machine
        (tables_in crates mapper aml tables found)
        (0, this, mid)
        end
bios_get_acpi-Parses_example =
    bios_get_acpi-Parses crates mapper aml tables machine keeps context [] []
      (record { tables_found = tt; aml_context = tt; registers = registers })
      (λ found. (omega arith, (omega arith, tt))) booted
