-- ===== src/Apic/Start.antt =====
-- `lapic_handover` and `apic_init` of src/apic.rs: control passes from the PICs to the local APIC, and
-- the timer and the keyboard get their vectors. `without_interrupts` adds nothing here.
pub mod Route
use capucho_os.Base.{
  ℕ, List, [], ◌∷◌, Option, none, some, false, Run, ret, panics, Panic, message, or_panic,
  unwrap_none, u8,
}
use capucho_os.Base
use capucho_os.Base.Io.{Io, ◌>>=◌, ◌>>◌, pure, lift}
use capucho_os.Memory.External.{Crates, Mapper, MapResult, ok, err}
use capucho_os.Memory.Paging.{UnmapGuard, PagingContext, mmap_dev}
use capucho_os.Interrupts.Controller.{InterruptController, apic_handover}
use capucho_os.Apic.Routing.{InterruptSourceOverride, IoApic, Apic}
use capucho_os.Apic.Entries.{get_entry, set_entry}
use capucho_os.Apic.RedirEntry.{set_vector, set_masked}
use capucho_os.Acpi.Power.{AmlCrate}

-- What the source reads of the crate's `IoApic` and `Apic`.
pub record IoApicInfo : Type 0 where
  pub address : ℕ
  pub global_system_interrupt_base : ℕ

pub record ApicInfo : Type 0 where
  pub local_apic_address : ℕ
  pub io_apics : List IoApicInfo
  pub interrupt_source_overrides : List InterruptSourceOverride

abbrev pub failed_to_map : Panic
failed_to_map = message "Failed to identity map"

-- An entry is read, gets its vector and is unmasked, and is written back.
unfoldable pub set_up_entry : Apic → ℕ → ℕ → Io (Unit {0})
set_up_entry this source vector = do
  entry ← get_entry this source
  set_entry this source (set_masked (set_vector entry vector) false)

module _ (crates : Crates) (mapper : Mapper) where
  unfoldable pub expect_device :
      MapResult UnmapGuard mapper.MapToError × PagingContext crates mapper
      → Run (PagingContext crates mapper)
  expect_device (err e, paging) = panics failed_to_map
  expect_device (ok guard, paging) = ret paging

  -- The frame at the address is mapped.
  unfoldable pub map_device : PagingContext crates mapper → ℕ → Run (PagingContext crates mapper)
  map_device paging base_address = Base.◌>>=◌ (crates.phys_addr_new base_address) (λ addr.
      Base.◌>>=◌ (or_panic unwrap_none (crates.frame_from_start addr))
        (λ frame. Base.◌>>=◌ (mmap_dev crates mapper paging frame false) expect_device))

  unfoldable pub lapic_handover :
      PagingContext crates mapper
      → InterruptController
      → ℕ
      → Io (PagingContext crates mapper × InterruptController)
  lapic_handover paging controller base_address = do
    mapped ← lift (map_device paging base_address)
    local ← apic_handover controller base_address
    pure (mapped, local)

  -- The loop over `info.io_apics`.
  unfoldable pub map_io_apics :
      PagingContext crates mapper
      → List IoApicInfo
      → Run (List IoApic × PagingContext crates mapper)
  map_io_apics paging [] = ret ([], paging)
  map_io_apics paging (io_apic ∷ rest) = Base.◌>>=◌ (map_device paging io_apic.address) (λ mapped.
      Base.◌>>=◌ (map_io_apics mapped rest) (λ others. ret (
        record {
          base_address = io_apic.address;
          base_interrupt = u8 io_apic.global_system_interrupt_base;
        }
            ∷ others.0,
        others.1,
      )))

  -- The handler of the interpreter's context works on the page tables of the kernel: `paging_of` gives
  -- them, and `with_paging` gives the context with those that the kernel changed.
  module _ (aml : AmlCrate) (paging_of : aml.Context → PagingContext crates mapper)
      (with_paging : aml.Context → PagingContext crates mapper → aml.Context) where
    -- What `apic_init` changes beside the devices: the interpreter with the page tables, and `PICS`.
    pub record Shared : Type 0 where
      pub aml_context : aml.Context
      pub controller : InterruptController

    unfoldable pub apic_init : Shared → ApicInfo → Io (Apic × Shared)
    apic_init this info = do
      name ← lift (or_panic unwrap_none (aml.name_from_str "\\_PIC"))
      told ← aml.invoke_method this.aml_context name (some 1)
      local ← lapic_handover (paging_of told.1) this.controller info.local_apic_address
      mapped ← lift (map_io_apics local.0 info.io_apics)
      let apic : Apic = record {
        interrupt_source_overrides = info.interrupt_source_overrides;
        io_apics = mapped.0;
      }
      set_up_entry apic 0 32
      set_up_entry apic 1 33
      pure (apic, record { aml_context = with_paging told.1 mapped.1; controller = local.1 })
