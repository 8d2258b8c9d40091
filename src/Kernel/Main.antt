-- ===== src/Kernel/Main.antt =====
-- `kernel_main` of src/main.rs. The log lines of src/acpi.rs are left out.
use capucho_os.Kernel.Sata.Log.{Formats, debug, info}
use capucho_os.Memory.Context.{BootInfo}
use capucho_os.Vga.{Writer}
use capucho_os.Kernel.Sata.Registers.{log_registers}
use capucho_os.Vga.Print.{println}
use capucho_os.Base.Text.{codes}
use capucho_os.Base.Io.{◌>>◌}
use capucho_os.Base.{[], ◌∷◌, ℕ, Option, none, message, or_panic, check, unreachable_code}
use capucho_os.Base.Io.{Io, ◌>>=◌, pure, panic, lift}
use capucho_os.Memory.External.{Crates, Mapper}
use capucho_os.Memory.Paging.{PagingContext}
use capucho_os.Interrupts.Handlers.{first_pics}
use capucho_os.Acpi.Power.{AmlCrate, enable, set_sleep_state, s5}
use capucho_os.Acpi.Tables.{TableCrates, bios_get_acpi}
use capucho_os.Apic.Start.{ApicInfo, Shared, apic_init}
use capucho_os.Pci.{brute_force_find}
use capucho_os.Kernel.Start
use capucho_os.Kernel.Sata.{PciTypes, find_sata, find_abar, map_abar}

-- `InterruptModel` of the crate `acpi`.
pub data InterruptModel : Type 0 where
  unknown other_model : InterruptModel
  apic_model : ApicInfo → InterruptModel

module _ (crates : Crates) (mapper : Mapper) (aml : AmlCrate)
    (tables : TableCrates crates mapper aml) (pci : PciTypes)
    (paging_of : aml.Context → PagingContext crates mapper)
    (with_paging : aml.Context → PagingContext crates mapper → aml.Context)
    (get_platform_info : tables.Tables → aml.Context → Io (Option InterruptModel × aml.Context))
    (formats : Formats) where
  -- `Acpi::platform_info`; the tables use the handler that the context shares.
  unfoldable pub platform_info : tables.Tables → aml.Context → Io (InterruptModel × aml.Context)
  platform_info acpi_tables context = do
    got ← get_platform_info acpi_tables context
    model ← lift (or_panic (message "Failed to get platform info") got.0)
    pure (model, got.1)

  -- The match on the interrupt model; of the local APIC only what is shared is kept.
  unfoldable pub start_apic :
      InterruptModel → aml.Context → Io (Shared crates mapper aml paging_of with_paging)
  start_apic unknown context = panic (message "We need apic")
  start_apic other_model context = panic unreachable_code
  start_apic (apic_model info) context = do
    started ←
        apic_init crates mapper aml paging_of with_paging
          (record { aml_context = context; controller = first_pics }) info
    pure started.1

  unfoldable pub kernel_main :
      Option (Unit {0}) → (ℕ → ℕ) → BootInfo mapper → Writer → Io (Unit {0})
  kernel_main set_logger raw boot_info screen = do
    shown ← lift (println screen (codes "Hello World!" ∷ []))
    kernel ← Start.init crates mapper set_logger raw boot_info
    acpi ← bios_get_acpi crates mapper aml tables kernel.context
    platform ← platform_info acpi.tables_found acpi.aml_context
    enabled ← enable acpi.registers
    ready ← lift (check enabled (message "Failed to init the acpi"))
    debug formats (codes "Apic handover start")
    shared ← start_apic platform.0 platform.1
    debug formats (codes "Apic handover end")
    devices ← brute_force_find
    sata_controller ← find_sata pci formats devices none
    abar ← find_abar pci formats sata_controller
    mapped ← lift (map_abar crates mapper (paging_of shared.aml_context) abar.0 abar.1)
    log_registers formats abar.0
    info formats (codes "Now perish")
    slept ← set_sleep_state aml acpi.registers (with_paging shared.aml_context mapped) s5
    done ← lift (check slept.0 (message "Failed to shutdown"))
    panic unreachable_code
