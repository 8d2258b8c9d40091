-- ===== src/Pci/Aml.antt =====
-- The PCI part of `AmlHandler` in src/acpi/handlers.rs.
pub mod Widths
use capucho_os.Base.{
  Run, ret, ◌≡◌, ◌<◌, ℕ, ◌+◌, ◌*◌, ◌%◌, ◌^◌, ◌/◌, bit_and, u8, u16, u32, ◌<<<◌, ◌>>>◌,
}
use capucho_os.Base.Io.{Io, ◌>>=◌, pure, lift}
use capucho_os.Pci.{PciAddress, read, write}

-- `PciAddress::new` of the crate `pci_types` packs the four numbers; a device from 32 on or a function
-- from 8 on does not fit its bits, and then it panics.
pub record AddressCrate : Type 0 where
  pub new : ℕ → ℕ → ℕ → ℕ → Run PciAddress
  pub new_lem :
      (segment bus device function : ℕ)
      → device < 32
      → function < 8
      → new segment bus device function
        ≡ ret (record { segment = segment; bus = bus; device = device; function = function })

module _ (crate : AddressCrate) where
  unfoldable pub read_pci_u8 : ℕ → ℕ → ℕ → ℕ → ℕ → Io ℕ
  read_pci_u8 segment bus device function offset = do
    address ← lift (crate.new segment bus device function)
    value ← read address (bit_and offset 0xFFFC)
    pure (u8 (value >>> (offset % 4 * 8)))

  unfoldable pub read_pci_u16 : ℕ → ℕ → ℕ → ℕ → ℕ → Io ℕ
  read_pci_u16 segment bus device function offset = do
    address ← lift (crate.new segment bus device function)
    value ← read address (bit_and offset 0xFFFC)
    pure (u16 (value >>> (offset % 2 * 16)))

  unfoldable pub read_pci_u32 : ℕ → ℕ → ℕ → ℕ → ℕ → Io ℕ
  read_pci_u32 segment bus device function offset =
      lift (crate.new segment bus device function) >>= λ address. read address offset

  unfoldable pub write_pci_u8 : ℕ → ℕ → ℕ → ℕ → ℕ → ℕ → Io (Unit {0})
  write_pci_u8 segment bus device function offset value =
      lift (crate.new segment bus device function) >>= λ address.
      write address (bit_and offset 0xFFFC) (u32 (value <<< (offset % 4 * 8)))

  unfoldable pub write_pci_u16 : ℕ → ℕ → ℕ → ℕ → ℕ → ℕ → Io (Unit {0})
  write_pci_u16 segment bus device function offset value =
      lift (crate.new segment bus device function) >>= λ address.
      write address (bit_and offset 0xFFFC) (u32 (value <<< (offset % 2 * 16)))

  unfoldable pub write_pci_u32 : ℕ → ℕ → ℕ → ℕ → ℕ → ℕ → Io (Unit {0})
  write_pci_u32 segment bus device function offset value =
      lift (crate.new segment bus device function) >>= λ address. write address offset value
