-- ===== src/Kernel/Sata/Log.antt =====
-- The log lines of `kernel_main` in src/main.rs, and the data of the crate `pci_types` that they show.
use capucho_os.Pci.{PciAddress}
use capucho_os.Base.Io.{Io}
use capucho_os.Kernel.Logger.{Record, log_record}
use capucho_os.Base.{List, ◌++◌, ◌∷◌, ℕ}
use capucho_os.Base.Text.{codes}

-- `Bar` of the crate `pci_types`, with the fields that the source reads.
pub data Bar : Type 0 where
  memory32 memory64 : ℕ → ℕ → Bar
  io : Bar

-- The numbers that `revision_and_class` gives.
pub record Class : Type 0 where
  pub revision : ℕ
  pub class : ℕ
  pub subclass : ℕ
  pub interface : ℕ

-- What `core::fmt` and the crates write for a value, and what a log record says of its
-- place in the source.
pub record Formats : Type 0 where
  pub decimal : ℕ → List ℕ
  pub hex_text : ℕ → List ℕ
  pub capabilities_text : ℕ → List ℕ
  pub control_text : ℕ → List ℕ
  pub interrupt_text : ℕ → List ℕ
  pub place : Record
  pub address_text : PciAddress → List ℕ
  pub device_text : ℕ → ℕ → List ℕ
  pub bar_text : Bar → List ℕ

-- `log::info!`.
unfoldable pub info : Formats → List ℕ → Io (Unit {0})
info formats args = log_record (record formats.place { level = codes "INFO"; args = args })

-- `log::debug!`.
unfoldable pub debug : Formats → List ℕ → Io (Unit {0})
debug formats args = log_record (record formats.place { level = codes "DEBUG"; args = args })

-- The line on a device.
unfoldable pub device_line : Formats → PciAddress → Class → ℕ → List ℕ
device_line formats address c kind =
    formats.address_text address
    ++ b' ' ∷ formats.device_text c.class c.subclass
    ++ codes " class: "
    ++ formats.decimal c.class
    ++ codes " subclass: "
    ++ formats.decimal c.subclass
    ++ codes " interface: "
    ++ formats.decimal c.interface
    ++ codes " header: "
    ++ formats.hex_text kind
