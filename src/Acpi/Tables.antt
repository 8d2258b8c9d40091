-- ===== src/Acpi/Tables.antt =====
-- `bios_get_acpi` of src/acpi.rs: the tables are found, the DSDT and the SSDTs are mapped and parsed,
-- and the fields of `Acpi` are read from the FADT. The log lines are left out.
pub mod Loaded
pub mod Parsed
pub mod Boot
use capucho_os.Acpi.Power.Sleep.{control}
use capucho_os.Base.{
  ret, Panic, ℕ, ◌+◌, ◌^◌, Bool, true, false, List, [], ◌∷◌, Option, none, some, Run, message,
  or_panic, unwrap_none, u16, ◌==◌, if◌then◌else◌,
}
use capucho_os.Base
use capucho_os.Base.Io.{Io, ◌>>=◌, ◌>>◌, pure, lift}
use capucho_os.Memory.External.{Crates, Mapper}
use capucho_os.Memory.Paging.{PagingContext}
use capucho_os.Acpi.Handler.{Handler, new}
use capucho_os.Acpi.Regions.{map_all, in_usize}
use capucho_os.Acpi.Power.{AmlCrate, Registers}

-- `AmlTable` of the crate `acpi`.
pub record AmlTable : Type 0 where
  pub address : ℕ
  pub length : ℕ

-- What the source reads of the `Fadt`. A block is none where the crate reports an error, and the
-- second block, where it is read, may be absent; a block is given by its address.
pub record Fadt : Type 0 where
  pub acpi_enable : ℕ
  pub smi_cmd_port : ℕ
  pub pm1a_control_block : Option ℕ
  pub pm1b_control_block : Option (Option ℕ)

module _ (crates : Crates) (mapper : Mapper) where
  -- The frames of a table, to the one of the first byte behind it, are mapped.
  unfoldable pub map_table : Handler crates mapper → AmlTable → Run (Handler crates mapper)
  map_table handler table = Base.◌>>=◌ (crates.phys_addr_new table.address) (λ first.
      Base.◌>>=◌ (in_usize crates mapper (table.address + table.length)) (λ sum.
        Base.◌>>=◌ (crates.phys_addr_new sum) (λ last. map_all crates mapper handler (
          crates.frame_range_inclusive (crates.frame_containing first)
            (crates.frame_containing last)))))

module _ (crates : Crates) (mapper : Mapper) (aml : AmlCrate) where
  -- What the source uses of the crates `acpi` and `aml` for the start. They use the handler, which
  -- every function that may call it takes and gives back.
  pub record TableCrates : Type 1 where
    pub Tables : Type 0
    pub Interpreter : Type 0
    -- `AcpiTables::search_for_rsdp_bios`, its fields and `get_sdt::<Fadt>`.
    pub search_for_rsdp_bios : Handler crates mapper → Io (Option Tables × Handler crates mapper)
    pub dsdt : Tables → Option AmlTable
    pub ssdts : Tables → List AmlTable
    pub get_fadt :
        Tables → Handler crates mapper → Io (Option (Option Fadt) × Handler crates mapper)
    -- `AmlContext::new`, `parse_table` and `initialize_objects`; none is an error.
    pub new_interpreter : Interpreter
    pub parse_table :
        Interpreter
        → AmlTable
        → Handler crates mapper
        → Io (Option Interpreter × Handler crates mapper)
    pub initialize_objects :
        Interpreter → Handler crates mapper → Io (Option Interpreter × Handler crates mapper)
    -- The interpreter with the handler that it shares.
    pub with_handler : Interpreter → Handler crates mapper → aml.Context

  module _ (tables : TableCrates) where
    -- The fields of `Acpi`.
    pub record Acpi : Type 0 where
      pub tables_found : tables.Tables
      pub aml_context : aml.Context
      pub registers : Registers

    abbrev pub parse_failed : Base.Panic
    parse_failed = message "Failed to parse the dsdt"

    unfoldable pub load_table :
        tables.Interpreter
        → Handler crates mapper
        → AmlTable
        → Io (tables.Interpreter × Handler crates mapper)
    load_table context handler table = do
      mapped ← lift (map_table crates mapper handler table)
      parsed ← tables.parse_table context table mapped
      next ← lift (or_panic parse_failed parsed.0)
      pure (next, parsed.1)

    -- `if let Some(ref dsdt)`.
    unfoldable pub load_dsdt :
        tables.Interpreter
        → Handler crates mapper
        → Option AmlTable
        → Io (tables.Interpreter × Handler crates mapper)
    load_dsdt context handler none = pure (context, handler)
    load_dsdt context handler (some dsdt) = load_table context handler dsdt

    unfoldable pub load_ssdts :
        tables.Interpreter
        → Handler crates mapper
        → List AmlTable
        → Io (tables.Interpreter × Handler crates mapper)
    load_ssdts context handler [] = pure (context, handler)
    load_ssdts context handler (ssdt ∷ rest) =
        load_table context handler ssdt >>= λ next. load_ssdts next.0 next.1 rest

    -- `.filter(|cnt| cnt.address != 0).map(|cnt| cnt.address as u16)`.
    unfoldable pub second_control : Option ℕ → Option ℕ
    second_control none = none
    second_control (some address) = if address == 0 then none else some (u16 address)

    -- The fields that come from the FADT.
    unfoldable pub read_fadt : Fadt → Run Registers
    read_fadt fadt =
        Base.◌>>=◌
          (or_panic (message "Error when parsing pm1a control block") fadt.pm1a_control_block)
          (λ pm1a.
            Base.◌>>=◌
              (or_panic (message "Error when parsing pm1b control block") fadt.pm1b_control_block)
              (λ pm1b. Base.ret (record {
                smi_cmd_port = u16 fadt.smi_cmd_port;
                pm1a_cnt = u16 pm1a;
                pm1b_cnt = second_control pm1b;
                acpi_enable = fadt.acpi_enable;
              })))

    -- The part of `bios_get_acpi` after the tables were parsed.
    unfoldable pub finish : tables.Tables → tables.Interpreter → Handler crates mapper → Io Acpi
    finish acpi_tables interpreter handler = do
      ready ← tables.initialize_objects interpreter handler
      context ← lift (or_panic (message "Failed to init the aml objects") ready.0)
      sdt ← tables.get_fadt acpi_tables ready.1
      entry ← lift (or_panic (message "Error when serching for the FADT") sdt.0)
      fadt ← lift (or_panic (message "Couldn't find the FADT") entry)
      registers ← lift (read_fadt fadt)
      pure (record {
        tables_found = acpi_tables;
        aml_context = tables.with_handler context sdt.1;
        registers = registers;
      })

    -- The tables are parsed, first the DSDT and then the SSDTs.
    unfoldable pub load_tables :
        tables.Tables → Handler crates mapper → Io (tables.Interpreter × Handler crates mapper)
    load_tables acpi_tables handler = do
      one ← load_dsdt tables.new_interpreter handler (tables.dsdt acpi_tables)
      load_ssdts one.0 one.1 (tables.ssdts acpi_tables)

    unfoldable pub bios_get_acpi : PagingContext crates mapper → Io Acpi
    bios_get_acpi paging = do
      found ← tables.search_for_rsdp_bios (new crates mapper paging)
      acpi_tables ← lift (or_panic unwrap_none found.0)
      loaded ← load_tables acpi_tables found.1
      finish acpi_tables loaded.0 loaded.1
